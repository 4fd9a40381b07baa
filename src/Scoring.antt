-- ===== src/Scoring.antt =====
-- Endpoint scores and the choice of a candidate: backend/app/services/endpoint_scoring.py.
pub mod Bounds
pub mod Order
mod Tests
use midscale.Prelude.{
  ℕ, ◌*◌, Bool, true, false, Option, none, some, List, [], ◌∷◌, ◌||◌, ◌&&◌, if◌then◌else◌,
}
use midscale.Prelude.Int.{ℤ, pos, ◌+ℤ◌, ◌-ℤ◌, min_ℤ, max_ℤ, neg, eq_ℤ, ltb_ℤ, floor_div}
use midscale.Prelude.Sort.{sorted}
use midscale.Endpoints.{DeviceEndpoint}

abbrev pub base_score : ℤ
base_score = pos 50

abbrev pub score_max : ℤ
score_max = pos 200

-- The penalty for the latency, 1 for each 10 ms; none where no latency is known.
abbrev pub latency_penalty : Option ℤ → ℤ
latency_penalty none = pos 0
latency_penalty (some l) = floor_div l 10

unfoldable pub raw_score : Bool → Option ℤ → (failure_count success_count : ℕ) → (priority : ℤ) → ℤ
raw_score reachable latency_ms failure_count success_count priority =
    (if reachable then base_score +ℤ pos 100 else base_score)
    -ℤ min_ℤ priority (pos 100)
    -ℤ latency_penalty latency_ms
    -ℤ pos (failure_count * 5)
    +ℤ pos (success_count * 2)

unfoldable pub compute_endpoint_score :
    Bool → Option ℤ → (failure_count success_count : ℕ) → (priority : ℤ) → ℤ
compute_endpoint_score reachable latency_ms failure_count success_count priority =
    max_ℤ (pos 0)
      (min_ℤ (raw_score reachable latency_ms failure_count success_count priority) score_max)

-- `e.latency_ms or 9999`: a latency that is absent, and a latency of 0 too, counts as 9999.
abbrev pub sort_latency : Option ℤ → ℤ
sort_latency none = pos 9999
sort_latency (some l) = if eq_ℤ l (pos 0) then pos 9999 else l

-- The components of the sort key of `select_best_endpoint` and `sort_endpoint_candidates`.
abbrev pub reach_key : DeviceEndpoint → ℤ
reach_key e = if e.reachable then pos 1 else pos 0

-- Tuples are compared from the left; with `reverse=True` the greater key comes first.
abbrev pub lex_above : ℤ → ℤ → Bool → Bool
lex_above a b rest = ltb_ℤ b a || (eq_ℤ b a && rest)

unfoldable pub outranks : DeviceEndpoint → DeviceEndpoint → Bool
outranks e f = lex_above e.score f.score (
    lex_above (reach_key e) (reach_key f) (
      lex_above (neg (sort_latency e.latency_ms)) (neg (sort_latency f.latency_ms))
        (ltb_ℤ (neg f.priority) (neg e.priority))))

unfoldable pub sort_endpoint_candidates : List DeviceEndpoint → List DeviceEndpoint
unfolding outranks sorted
sort_endpoint_candidates endpoints = sorted outranks endpoints

abbrev pub first {ℓ} : {A : Type ℓ} → List A → Option A
first [] = none
first (x ∷ xs) = some x

unfoldable pub select_best_endpoint : List DeviceEndpoint → Option DeviceEndpoint
unfolding outranks sorted
select_best_endpoint endpoints = first (sorted outranks endpoints)
