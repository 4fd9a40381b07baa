-- ===== src/RateLimiter/Tests.antt =====
-- Three requests under a limit of two, and the theorems about it:
-- backend/app/services/rate_limiter.py.
use midscale.Prelude.{ℕ, ◌≤◌, some, List, [], ◌∷◌, ◌≡◌, refl, arith}
use midscale.Prelude.Dict.{Key, get, put}
use midscale.RateLimiter.{check_memory, purge}
use midscale.RateLimiter.Window.{run, recent, no_clients, run_bound}

abbrev requests : List (Key × ℕ)
requests = (some "a", 5) ∷ (some "a", 6) ∷ (some "b", 6) ∷ (some "a", 7) ∷ []

third_is_refused :
    (run 2 60 requests (no_clients, [])).1 ≡ (some "a", 5) ∷ (some "a", 6) ∷ (some "b", 6) ∷ []
unfolding run check_memory purge get put
third_is_refused = refl

run_bound_example : recent 60 (some "a") 7 (run 2 60 requests (no_clients, [])).1 ≤ 2
run_bound_example =
    run_bound 2 60 requests (some "a") 7
      (omega arith, (omega arith, (omega arith, (omega arith, tt)))) (omega arith)
