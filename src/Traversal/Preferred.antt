-- ===== src/Traversal/Preferred.antt =====
-- What a promotion does to the endpoints of a device: `_promote_endpoint` of
-- backend/app/services/nat.py.
use mathlib.Core.Bool.{true≢false}
use midscale.Prelude.{
  ℕ, ◌+◌, String, Bool, true, false, not, Option, List, [], ◌∷◌, ◌≡◌, refl, sym, ap, arith, inl,
  inr, Bool-cases, ==_refl, keep, count, any, ◌&&◌, ◌==◌,
}
use midscale.Prelude.Int.{ℤ, pos, ◌≤ℤ◌, ◌+ℤ◌, min_ℤ, eq_ℤ}
use midscale.Endpoints.{DeviceEndpoint}
use midscale.Scoring.{score_max}
use midscale.Scoring.Bounds.{compute_endpoint_score_bounds}
use midscale.Traversal.{World}
use midscale.Traversal.Promote.{
  Promotion, multiple_results_found, result, is_active_of, is_used, promoted, promote_found,
  promote_endpoint, switch_off_others,
}

capped : (a : ℤ) → min_ℤ a (pos 200) ≤ℤ pos 200
capped a = ground arith

-- A promoted endpoint scores 200 at most, whatever it scored before.
pub promoted_bound :
    (latency_ms : Option ℤ) (now : ℕ) (e : DeviceEndpoint)
    → (promoted latency_ms now e).score ≤ℤ score_max
unfolding promoted
promoted_bound l now e = elim (Bool-cases (eq_ℤ e.score (pos 0))) [
  | inl h ↦
      rw h (compute_endpoint_score_bounds true l e.failure_count (e.success_count + 1) e.priority).1
  | inr h ↦ rw h (capped (e.score +ℤ pos 30))
]

switched :
    (d k : ℕ) (rows : List DeviceEndpoint)
    → count (λ e. is_active_of d e && not (e.id == k)) (switch_off_others d k rows) ≡ 0
switched d k [] = refl
switched d k (e ∷ rows) = ground (arith, switched d k rows)

kept :
    (p : DeviceEndpoint → Bool) (rows : List DeviceEndpoint) (ep : DeviceEndpoint)
    (more : List DeviceEndpoint)
    → keep p rows ≡ ep ∷ more
    → any (λ e. p e && e.id == ep.id) rows ≡ true
kept p [] ep more h = cc
kept p (e ∷ rows) ep more h = ground (arith, kept p rows ep more, ==_refl ep.id)

abbrev score_of : Promotion → ℤ
score_of multiple_results_found = pos 0
score_of (result score preferred) = score

abbrev preferred_of : Promotion → Bool
preferred_of multiple_results_found = false
preferred_of (result score preferred) = preferred

module _ (d : ℕ) (latency_ms : Option ℤ) (now : ℕ) where
  -- The endpoint that the query found, if it comes out as the preferred one.
  one_left :
      (ep : DeviceEndpoint) (w : World)
      → preferred_of (promote_found (ep ∷ []) d latency_ms now w).0 ≡ true
      → count
          (λ e. is_active_of d e && not (e.id == ep.id))
          (promote_found (ep ∷ []) d latency_ms now w).1.endpoints
        ≡ 0
  unfolding promote_found
  one_left ep w h = rw h (switched d ep.id _)

  one_score :
      (ep : DeviceEndpoint) (w : World)
      → score_of (promote_found (ep ∷ []) d latency_ms now w).0 ≤ℤ score_max
  unfolding promote_found
  one_score ep w = promoted_bound latency_ms now ep

  found_preferred :
      (used : List DeviceEndpoint) (p : DeviceEndpoint → Bool) (w : World)
      → keep p w.endpoints ≡ used
      → preferred_of (promote_found used d latency_ms now w).0 ≡ true
      → (score_of (promote_found used d latency_ms now w).0 ≤ℤ score_max)
        × ((k : ℕ) × (any (λ e. p e && e.id == k) w.endpoints ≡ true)
            × (count
                  (λ e. is_active_of d e && not (e.id == k))
                  (promote_found used d latency_ms now w).1.endpoints
                ≡ 0))
  unfolding promote_found
  found_preferred [] p w h won = absurd (true≢false (sym won))
  found_preferred (ep ∷ []) p w h won =
      (one_score ep w, (ep.id, kept p w.endpoints ep [] h, one_left ep w won))
  found_preferred (ep ∷ f ∷ more) p w h won = absurd (true≢false (sym won))

-- When a promotion answers that its endpoint is the preferred one, the score is 200 at most, and the
-- active endpoints that the device has left all carry the id of an endpoint that was active at the
-- address and the port of the call.
pub promote_endpoint-preferred :
    (d : ℕ) (endpoint : String) (port : ℤ) (latency_ms : Option ℤ) (now : ℕ) (w : World)
    → (score : ℤ) (w' : World)
    → promote_endpoint d endpoint port latency_ms now w ≡ (result score true, w')
    → (score ≤ℤ score_max)
      × ((k : ℕ) × (any (λ e. is_used d endpoint port e && e.id == k) w.endpoints ≡ true)
          × (count (λ e. is_active_of d e && not (e.id == k)) w'.endpoints ≡ 0))
unfolding promote_endpoint
promote_endpoint-preferred d endpoint port latency now w score w' h =
    let (bound, (k, there, left)) =
      found_preferred d latency now (keep (is_used d endpoint port) w.endpoints)
        (is_used d endpoint port) w refl (ap (λ r. preferred_of r.0) h) in
    (rw (sym (ap (λ r. score_of r.0) h)) bound, (k, there, rw (sym (ap (λ r. r.1) h)) left))
