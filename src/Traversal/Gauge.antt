-- ===== src/Traversal/Gauge.antt =====
-- The gauge NAT_SESSION_ACTIVE and the sessions under the results of punches:
-- backend/app/services/nat.py.
use mathlib.Core.Path.{subst}
use midscale.Prelude.{
  ℕ, String, Bool, true, false, Option, none, some, List, [], ◌∷◌, ◌≡◌, ◌+◌, refl, sym, ap, ◌∙◌,
  arith, inl, inr, leb, keep, find, count, update_first, if◌then◌else◌, Bool-cases, ==_iff,
  find-some, count-update_first, find-update_first,
}
use midscale.Prelude.Int.{ℤ}
use midscale.Endpoints.{DeviceEndpoint}
use midscale.Traversal.{NatState, connected, failed, NatSession, World, has_id, is_open}
use midscale.Traversal.Promote.{
  Promotion, multiple_results_found, result, is_used, promote_endpoint, promote_found,
}
use midscale.Traversal.Sessions.{
  Env, returned, punch_succeeded, publish_config_changed, fall_back, fall_back_if, after_promotion,
  promote_chosen, chosen, answer_row, with_failure, failures, connected_by, failed_by,
}
use midscale.Traversal.Results.{record_punch_result, punch_failed}

-- The table of sessions and the gauge are the same.
abbrev Kept : World → World → Type 0
Kept w w' = (w'.sessions ≡ w.sessions) × (w'.session_active ≡ w.session_active)

promote_found-Kept :
    (used : List DeviceEndpoint) (d : ℕ) (latency : Option ℤ) (now : ℕ) (w : World)
    → Kept w (promote_found used d latency now w).1
unfolding promote_found
promote_found-Kept [] d latency now w = (refl, refl)
promote_found-Kept (e ∷ []) d latency now w = (refl, refl)
promote_found-Kept (e ∷ f ∷ more) d latency now w = (refl, refl)

publish-Kept : (env : Env) (s : NatSession) (w : World) → Kept w (publish_config_changed env s w)
unfolding publish_config_changed
publish-Kept env s w = elim (Bool-cases env.event_bus) [
  | inl e ↦ rw e (refl, refl)
  | inr e ↦ rw e (refl, refl)
]

after_promotion-Kept :
    (env : Env) (s : NatSession) (before : World) (r : Promotion × World) (score : ℤ)
    (preferred : Bool) (w' : World)
    → after_promotion env s before r ≡ (result score preferred, w')
    → Kept r.1 w'
after_promotion-Kept env s before (multiple_results_found, w) score preferred w' h = ground arith
after_promotion-Kept env s before (result a b, w) score preferred w' h =
    subst (Kept w) (ap (λ x. x.1) h) (publish-Kept env s w)

chosen-Kept :
    (env : Env) (s : NatSession) (c : Option (String × ℤ)) (latency : Option ℤ) (before w : World)
    (score : ℤ) (preferred : Bool) (w' : World)
    → promote_chosen env s c latency before w ≡ (result score preferred, w')
    → Kept w w'
unfolding promote_endpoint
chosen-Kept env s none latency before w score preferred w' h =
    subst (Kept w) (ap (λ x. x.1) h) (refl, refl)
chosen-Kept env s (some (e, p)) latency before w score preferred w' h =
    let used = keep (is_used s.target_device_id e p) w.endpoints in
    let promoted = promote_found-Kept used s.target_device_id latency env.now w in
    let told =
      after_promotion-Kept env s before (promote_found used s.target_device_id latency env.now w)
        score preferred w' h in
    (told.0 ∙ promoted.0, told.1 ∙ promoted.1)

answer_row-returned :
    (s : NatSession) (r : Promotion × World) (o : Option NatSession) (w' : World)
    → answer_row s r ≡ (returned o, w')
    → (score : ℤ) × ((preferred : Bool) × (r ≡ (result score preferred, w')))
answer_row-returned s (multiple_results_found, w) o w' h = ground arith
answer_row-returned s (result score preferred, w) o w' h =
    (score, (preferred, ap (λ x. (result score preferred, x)) (ap (λ x. x.1) h)))

fall_back_if-Kept :
    (b : Bool) (env : Env) (s : NatSession) (w : World) → Kept w (fall_back_if b env s w)
unfolding fall_back_if fall_back
fall_back_if-Kept true env s w = (refl, refl)
fall_back_if-Kept false env s w = (refl, refl)

-- The row of the session is rewritten by `f`, and the gauge is the same.
abbrev Rewritten : ℕ → (NatSession → NatSession) → World → World → Type 0
Rewritten k f w w' =
    (w'.sessions ≡ update_first (has_id k) f w.sessions) × (w'.session_active ≡ w.session_active)

succeeded-Rewritten :
    (env : Env) (endpoint : Option String) (port latency : Option ℤ) (s : NatSession) (w w' : World)
    (o : Option NatSession)
    → punch_succeeded env endpoint port latency s w ≡ (returned o, w')
    → Rewritten s.id (connected_by endpoint port latency env.now) w w'
unfolding punch_succeeded
succeeded-Rewritten env endpoint port latency s w w' o h =
    let (score, (preferred, e)) = answer_row-returned _ _ o w' h in
    chosen-Kept env s (chosen endpoint port) latency _ _ score preferred w' e

failed-Rewritten :
    (env : Env) (error : Option String) (s : NatSession) (w w' : World) (o : Option NatSession)
    → punch_failed env error s w ≡ (returned o, w')
    → Rewritten s.id (failed_by env.tracks error env.now) w w'
unfolding punch_failed
failed-Rewritten env error s w w' o h =
    subst (Rewritten s.id (failed_by env.tracks error env.now) w) (ap (λ x. x.1) h)
      (fall_back_if-Kept (leb 2 (failures (with_failure error s.extra_metadata))) env s _)

abbrev pub open_sessions : World → ℕ
open_sessions w = count (λ s. is_open s.state) w.sessions

-- What a rewriting into a state that is not open leaves.
abbrev Ended : ℕ → NatState → NatSession → World → World → Type 0
Ended k state s w w' =
    (r : NatSession) × (find (has_id k) w'.sessions ≡ some r)
    × (r.state ≡ state)
    × (open_sessions w' + (if is_open s.state then 1 else 0) ≡ open_sessions w)
    × (w'.session_active ≡ w.session_active)

Rewritten-Ended :
    (k : ℕ) (f : NatSession → NatSession) (state : NatState) (s : NatSession) (w w' : World)
    → find (has_id k) w.sessions ≡ some s
    → has_id k (f s) ≡ true
    → (f s).state ≡ state
    → is_open state ≡ false
    → Rewritten k f w w'
    → Ended k state s w w'
Rewritten-Ended k f state s w w' e same is over (sessions, gauge) =
    let counted = count-update_first (λ x. is_open x.state) (has_id k) f w.sessions s e in
    let there = find-update_first (has_id k) f w.sessions s e same in
    (
      f s,
      ap (find (has_id k)) sessions ∙ there,
      is,
      ground (arith, counted, ap is_open is, over, ap (count (λ x. is_open x.state)) sessions),
      gauge,
    )

-- A punch result that is answered ends its session but leaves the gauge of active sessions as it was:
-- the session is connected after a success and failed after a failure, and if it was open, one session
-- fewer is open afterwards, while the gauge has not moved.
pub record_punch_result-ends :
    (env : Env) (k : ℕ) (success : Bool) (endpoint : Option String) (port latency : Option ℤ)
    (error : Option String) (s : NatSession) (w w' : World) (o : Option NatSession)
    → find (has_id k) w.sessions ≡ some s
    → record_punch_result env k success endpoint port latency error w ≡ (returned o, w')
    → (r : NatSession) × (find (has_id k) w'.sessions ≡ some r)
      × (r.state ≡ (if success then connected else failed))
      × (open_sessions w' + (if is_open s.state then 1 else 0) ≡ open_sessions w)
      × (w'.session_active ≡ w.session_active)
unfolding record_punch_result
record_punch_result-ends env k true endpoint port latency error s w w' o e h =
    let own : has_id k s ≡ true = find-some (has_id k) w.sessions s e in
    let f = connected_by endpoint port latency env.now in
    let done =
      succeeded-Rewritten env endpoint port latency s w w' o
        (sym (rw (e, record_punch_result) refl) ∙ h) in
    Rewritten-Ended k f connected s w w' e own refl refl
      (subst (λ j. Rewritten j f w w') ((==_iff s.id k).0 own) done)
record_punch_result-ends env k false endpoint port latency error s w w' o e h =
    let own : has_id k s ≡ true = find-some (has_id k) w.sessions s e in
    let f = failed_by env.tracks error env.now in
    let done = failed-Rewritten env error s w w' o (sym (rw (e, record_punch_result) refl) ∙ h) in
    Rewritten-Ended k f failed s w w' e own refl refl
      (subst (λ j. Rewritten j f w w') ((==_iff s.id k).0 own) done)
