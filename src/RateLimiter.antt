-- ===== src/RateLimiter.antt =====
-- The rate limiter in memory: `_check_memory`, `reset` and `_periodic_cleanup` of
-- backend/app/services/rate_limiter.py. Times are whole seconds; a comparison with
-- `now - window` has the window on the other side.
pub mod Window
mod Tests
use midscale.Prelude.{
  ℕ, ◌+◌, ◌-◌, Bool, true, false, not, Option, none, some, List, [], ◌∷◌, ◌++◌, length, ltb, leb,
  if◌then◌else◌,
}
use midscale.Prelude.Dict.{Key, Dict, get, put, pop, keep_items}

-- `_clients`: the times of the requests that were allowed, by key.
pub record Limiter : Type 0 where
  pub clients : Dict (List ℕ)

-- `_clients[key]` of a defaultdict.
abbrev pub or_empty : Option (List ℕ) → List ℕ
or_empty none = []
or_empty (some ts) = ts

abbrev pub stamps : Key → Limiter → List ℕ
stamps k w = or_empty (get k w.clients)

-- What a check returns, or the IndexError of `timestamps[0]` on no timestamps.
pub data Verdict : Type 0 where
  allowed : Verdict
  refused : (retry_after : ℕ) → Verdict
  index_error : Verdict

abbrev pub verdict_at : (window now : ℕ) → List ℕ → Verdict
verdict_at window now [] = index_error
verdict_at window now (t ∷ ts) = refused (if leb (t + window - now) 1 then 1 else t + window - now)

module _ (max_requests window_seconds : ℕ) where
  -- The loop that drops what is older than the window.
  unfoldable pub purge : (now : ℕ) → List ℕ → List ℕ
  purge now [] = []
  purge now (t ∷ ts) =
      let rest = purge now ts in if ltb (t + window_seconds) now then rest else t ∷ ts

  -- The purged deque is the key's own, in each case.
  abbrev pub answer : Bool → Key → (now : ℕ) → List ℕ → Limiter → Verdict × Limiter
  answer true k now ts w =
      (verdict_at window_seconds now ts, record w { clients = put k ts w.clients })
  answer false k now ts w = (allowed, record w { clients = put k (ts ++ now ∷ []) w.clients })

  unfoldable pub check_memory : Key → (now : ℕ) → Limiter → Verdict × Limiter
  unfolding purge
  check_memory k now w =
      let ts = purge now (stamps k w) in answer (leb max_requests (length ts)) k now ts w

  -- `v and v[-1] < window_start`
  abbrev pub is_stale : (now : ℕ) → List ℕ → Bool
  is_stale now [] = false
  is_stale now (t ∷ []) = ltb (t + window_seconds) now
  is_stale now (t ∷ u ∷ ts) = is_stale now (u ∷ ts)

  -- One round of `_periodic_cleanup`.
  unfoldable pub periodic_cleanup : (now : ℕ) → Limiter → Limiter
  periodic_cleanup now w = record w { clients = keep_items (λ _ v. not (is_stale now v)) w.clients }

unfoldable pub reset : Key → Limiter → Limiter
reset k w = record w { clients = pop k w.clients }
