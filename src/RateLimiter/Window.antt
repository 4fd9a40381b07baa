-- ===== src/RateLimiter/Window.antt =====
-- The requests that pass in a window: `_check_memory` of backend/app/services/rate_limiter.py.
use midscale.Prelude.{
  ℕ, ◌+◌, ◌≤◌, Bool, true, false, Option, some, List, [], ◌∷◌, ◌++◌, ◌≡◌, refl, ap, ◌∙◌, arith,
  length, count, count-append, length-append, leb, if◌then◌else◌, ◌&&◌,
}
use midscale.Prelude.Dict.{Key, key_eq, key_eq_iff, get, put, get-put}
use midscale.RateLimiter.{
  Limiter, or_empty, Verdict, allowed, verdict_at, stamps, purge, answer, check_memory,
}

module _ (window : ℕ) where
  -- A request at `s` lies in the window that ends at `t`, or after `t`.
  abbrev pub is_recent : ℕ → ℕ → Bool
  is_recent t s = leb t (s + window)

  -- The requests that were allowed, with their keys; those of one key in a window.
  abbrev pub recent : Key → ℕ → List (Key × ℕ) → ℕ
  recent k t log = count (λ r. key_eq r.0 k && is_recent t r.1) log

  -- What a purge drops lies in no window that ends now or later.
  count-purge :
      (max now t : ℕ) (ts : List ℕ)
      → now ≤ t
      → count (is_recent t) (purge max window now ts) ≡ count (is_recent t) ts
  unfolding purge
  count-purge max now t [] h = refl
  count-purge max now t (s ∷ ts) h = ground (arith, count-purge max now t ts)

abbrev pub log_if : Verdict → Key → ℕ → List (Key × ℕ) → List (Key × ℕ)
log_if allowed k now log = log ++ (k, now) ∷ []
log_if _ k now log = log

stamps-put :
    (k j : Key) (ts : List ℕ) (w : Limiter)
    → stamps j (record w { clients = put k ts w.clients }) ≡ (if key_eq k j then ts else stamps j w)
stamps-put k j ts w = ap or_empty (get-put k j ts w.clients) ∙ or_empty-if (key_eq k j) ts _
  where
    or_empty-if :
        (b : Bool) (ts : List ℕ) (o : Option (List ℕ))
        → or_empty (if b then some ts else o) ≡ (if b then ts else or_empty o)
    or_empty-if true ts o = refl
    or_empty-if false ts o = refl

count-le : (p : ℕ → Bool) (ts : List ℕ) → count p ts ≤ length ts
count-le p [] = omega arith
count-le p (t ∷ ts) = ground (arith, count-le p ts)

length-purge : (max window now : ℕ) (ts : List ℕ) → length (purge max window now ts) ≤ length ts
unfolding purge
length-purge max window now [] = omega arith
length-purge max window now (t ∷ ts) = ground (arith, length-purge max window now ts)

module _ (max window : ℕ) where
  -- One request after the other: the limiter and the log of those that were allowed.
  unfoldable pub run : List (Key × ℕ) → Limiter × List (Key × ℕ) → Limiter × List (Key × ℕ)
  run [] db = db
  run ((k, now) ∷ rs) (w, log) =
      let (v, w') = check_memory max window k now w in run rs (w', log_if v k now log)

  refusal-log :
      (now : ℕ) (ts : List ℕ) (k : Key) (log : List (Key × ℕ))
      → log_if (verdict_at window now ts) k now log ≡ log
  refusal-log now [] k log = refl
  refusal-log now (t ∷ ts) k log = refl

  -- Every deque is short enough, and holds what was allowed in any window that ends now or later.
  pub record IsTracked (now : ℕ) (w : Limiter) (log : List (Key × ℕ)) : Type 0 where
    pub short : (k : Key) → length (stamps k w) ≤ max
    pub same :
        (k : Key) (t : ℕ)
        → now ≤ t
        → recent window k t log ≡ count (is_recent window t) (stamps k w)

  module _ (start now : ℕ) (later : start ≤ now) (k : Key) (w : Limiter) (log : List (Key × ℕ))
      (h : IsTracked start w log) where
    abbrev purged : List ℕ
    purged = purge max window now (stamps k w)

    answer-IsTracked :
        (b : Bool)
        → leb max (length purged) ≡ b
        → let (v, w') = answer max window b k now purged w in IsTracked now w' (log_if v k now log)
    answer-IsTracked true e = rw (refusal-log now purged k log) (record {
      short = λ j. rw (stamps-put k j purged w) (short-if (key_eq k j) j);
      same = λ j t p. rw (stamps-put k j purged w) (same-if j t p);
    })
      where
        short-if : (b : Bool) (j : Key) → length (if b then purged else stamps j w) ≤ max
        short-if b j =
            ground (arith, h.short j, h.short k, length-purge max window now (stamps k w))

        same-if :
            (j : Key) (t : ℕ)
            → now ≤ t
            → recent window j t log
              ≡ count (is_recent window t) (if key_eq k j then purged else stamps j w)
        same-if j t p =
            h.same j t (omega arith)
            ∙ ground (arith, key_eq_iff k j, count-purge window max now t (stamps k w))
    answer-IsTracked false e = record {
      short = λ j. rw (stamps-put k j (purged ++ now ∷ []) w) (longer-if (key_eq k j) j e);
      same = λ j t p. rw (stamps-put k j (purged ++ now ∷ []) w) (added-if j t p);
    }
      where
        longer-if :
            (b : Bool) (j : Key)
            → leb max (length purged) ≡ false
            → length (if b then purged ++ now ∷ [] else stamps j w) ≤ max
        longer-if b j e = ground (arith, h.short j, length-append purged (now ∷ []))

        added-if :
            (j : Key) (t : ℕ)
            → now ≤ t
            → recent window j t (log ++ (k, now) ∷ [])
              ≡ count (is_recent window t) (if key_eq k j then purged ++ now ∷ [] else stamps j w)
        added-if j t p =
            count-append (λ r. key_eq r.0 j && is_recent window t r.1) log ((k, now) ∷ [])
            ∙ ground (
              arith,
              h.same j t (omega arith),
              key_eq_iff k j,
              count-append (is_recent window t) purged (now ∷ []),
              count-purge window max now t (stamps k w),
            )

-- The clock does not go back.
abbrev pub Ascending : ℕ → List (Key × ℕ) → Type 0
Ascending now [] = Unit
Ascending now ((k, t) ∷ rs) = (now ≤ t) × Ascending t rs

-- The time of the last request, or the given one.
abbrev pub last_time : ℕ → List (Key × ℕ) → ℕ
last_time now [] = now
last_time now ((k, t) ∷ rs) = last_time t rs

abbrev pub no_clients : Limiter
no_clients = record { clients = [] }

module _ (max window : ℕ) where
  check-IsTracked :
      (start now : ℕ) (k : Key) (w : Limiter) (log : List (Key × ℕ))
      → start ≤ now
      → IsTracked max window start w log
      → let (v, w') = check_memory max window k now w in
        IsTracked max window now w' (log_if v k now log)
  unfolding check_memory
  check-IsTracked start now k w log later h =
      answer-IsTracked max window start now later k w log h _ refl

  run-IsTracked :
      (now : ℕ) (rs : List (Key × ℕ)) (w : Limiter) (log : List (Key × ℕ))
      → Ascending now rs
      → IsTracked max window now w log
      → let (w', log') = run max window rs (w, log) in
        IsTracked max window (last_time now rs) w' log'
  unfolding run
  run-IsTracked now [] w log up h = h
  run-IsTracked now ((k, t) ∷ rs) w log up h =
      run-IsTracked t rs (check_memory max window k t w).1
        (log_if (check_memory max window k t w).0 k t log) up.1
        (check-IsTracked now t k w log up.0 h)

  fresh-IsTracked : IsTracked max window 0 no_clients []
  fresh-IsTracked = record {
    short = λ k. unfold get in omega arith;
    same = λ k t h. unfold get in refl;
  }

  -- A limiter that starts with no clients and gets requests at times that do not go back never lets
  -- more than `max` requests of one key pass in a window: at the last request and at any time `t`
  -- after it, at most `max` of those that passed are no older than the window's length.
  pub run_bound :
      (rs : List (Key × ℕ)) (k : Key) (t : ℕ)
      → Ascending 0 rs
      → last_time 0 rs ≤ t
      → recent window k t (run max window rs (no_clients, [])).1 ≤ max
  run_bound rs k t up late =
      let h = run-IsTracked 0 rs no_clients [] up fresh-IsTracked in
      let w = (run max window rs (no_clients, [])).0 in
      omega (arith, h.same k t late, h.short k, count-le (is_recent window t) (stamps k w))
