-- ===== src/Traversal/Promote.antt =====
-- The promotion of an endpoint and the candidates of a punch: `get_active_endpoints_by_device`,
-- `build_candidate_pairs` and `_promote_endpoint` of backend/app/services/nat.py.
use midscale.Prelude.{
  ℕ, ◌+◌, String, Bool, true, false, not, Option, none, some, List, [], ◌∷◌, ◌++◌, ◌&&◌, map, keep,
  update_where, str_eq, ◌==◌, if◌then◌else◌,
}
use midscale.Prelude.Int.{ℤ, pos, ◌+ℤ◌, min_ℤ, eq_ℤ, ltb_ℤ}
use midscale.Prelude.Sort.{sorted}
use midscale.Endpoints.{DeviceEndpoint}
use midscale.Scoring.{compute_endpoint_score, select_best_endpoint}
use midscale.Traversal.{World}

-- DeviceEndpoint.device_id == d, DeviceEndpoint.is_active
abbrev pub is_active_of : ℕ → DeviceEndpoint → Bool
is_active_of d e = e.device_id == d && e.is_active

-- By score, the highest first; rows of equal score stay in the order of the table.
unfoldable pub get_active_endpoints_by_device : ℕ → List DeviceEndpoint → List DeviceEndpoint
unfolding sorted
get_active_endpoints_by_device d rows =
    sorted (λ e f. ltb_ℤ f.score e.score) (keep (is_active_of d) rows)

-- One side of a candidate pair.
pub record Side : Type 0 where
  pub endpoint : String
  pub port : ℤ
  pub source : String
  pub local_ip : Option String
  pub public_ip : Option String
  pub priority : ℤ

abbrev pub side_of : DeviceEndpoint → Side
side_of e = record {
  endpoint = e.endpoint;
  port = e.port;
  source = e.source;
  local_ip = e.local_ip;
  public_ip = e.public_ip;
  priority = e.priority;
}

-- The two nested loops; the text `pair_key` is made of the four fields that it shows.
unfoldable pub pairs_of : List DeviceEndpoint → List DeviceEndpoint → List (Side × Side)
pairs_of [] tes = []
pairs_of (ie ∷ ies) tes = map (λ te. (side_of ie, side_of te)) tes ++ pairs_of ies tes

unfoldable pub build_candidate_pairs :
    (initiator_device_id target_device_id : ℕ) → World → List (Side × Side)
unfolding get_active_endpoints_by_device pairs_of
build_candidate_pairs initiator target w =
    pairs_of (get_active_endpoints_by_device initiator w.endpoints)
      (get_active_endpoints_by_device target w.endpoints)

-- The query for the endpoint that was used.
abbrev pub is_used : ℕ → String → ℤ → DeviceEndpoint → Bool
is_used d endpoint port e =
    e.device_id == d && (str_eq e.endpoint endpoint && (eq_ℤ e.port port && e.is_active))

abbrev pub or_old : Option ℤ → Option ℤ → Option ℤ
or_old none old = old
or_old (some l) old = some l

-- The writes to the endpoint: a first score is computed, a later one rises by 30 up to 200.
unfoldable pub promoted : Option ℤ → ℕ → DeviceEndpoint → DeviceEndpoint
unfolding compute_endpoint_score
promoted latency_ms now e = record e {
  success_count = e.success_count + 1;
  reachable = true;
  latency_ms = or_old latency_ms e.latency_ms;
  score =
      if eq_ℤ e.score (pos 0)
      then compute_endpoint_score true latency_ms e.failure_count (e.success_count + 1) e.priority
      else min_ℤ (e.score +ℤ pos 30) (pos 200);
  last_probe_at = some now;
}

-- The score and whether the endpoint is the preferred one; or the query found several rows, where
-- `scalar_one_or_none` raises.
pub data Promotion : Type 0 where
  multiple_results_found : Promotion
  result : (score : ℤ) (preferred : Bool) → Promotion

abbrev pub is_best : Option DeviceEndpoint → ℕ → Bool
is_best none k = false
is_best (some b) k = b.id == k

-- Every other active endpoint of the device is switched off.
abbrev pub switch_off_others : ℕ → ℕ → List DeviceEndpoint → List DeviceEndpoint
switch_off_others d k rows =
    update_where (λ e. is_active_of d e && not (e.id == k)) (λ e. record e { is_active = false })
      rows

-- What follows the query, by the rows that it found.
unfoldable pub promote_found :
    List DeviceEndpoint → (device_id : ℕ) → Option ℤ → (now : ℕ) → World → Promotion × World
unfolding promoted get_active_endpoints_by_device select_best_endpoint
promote_found [] d latency_ms now w = (result (pos 0) false, w)
promote_found (ep ∷ []) d latency_ms now w =
    let rows = update_where (λ e. e.id == ep.id) (promoted latency_ms now) w.endpoints in
    let preferred = is_best (select_best_endpoint (get_active_endpoints_by_device d rows)) ep.id in
    (
      result (promoted latency_ms now ep).score preferred,
      record w {
        endpoints = if preferred then switch_off_others d ep.id rows else rows;
        score_updates = w.score_updates + 1;
      },
    )
promote_found (ep ∷ other ∷ more) d latency_ms now w = (multiple_results_found, w)

unfoldable pub promote_endpoint :
    (device_id : ℕ) (endpoint : String) (port : ℤ) (latency_ms : Option ℤ) (now : ℕ)
    → World
    → Promotion × World
unfolding promote_found
promote_endpoint d endpoint port latency_ms now w =
    promote_found (keep (is_used d endpoint port) w.endpoints) d latency_ms now w
