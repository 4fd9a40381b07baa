-- ===== src/Relay/Lifecycle.antt =====
-- How the sessions of backend/app/services/relay.py move through their states.
use midscale.Prelude.{
  ℕ, ◌+◌, ◌≤◌, Bool, true, false, not, Option, none, some, List, [], ◌∷◌, ◌++◌, ◌≡◌, refl, inl, inr,
  arith, keep, find, count, update_where, update_first, ◌&&◌, length-keep-eq-count, Option-cases,
}
use midscale.Prelude.Int.{ℤ}
use midscale.Relay.{
  RelayState, pending, active, expired, failed, RelaySession, World, is_stale, ended, awaits,
  activated, has_id, counted, create_relay_session, activate_relay_session, expire_relay_session,
  fail_relay_session, update_relay_stats, cleanup_expired_relays, auto_create_relay_fallback,
  end_session,
}
use midscale.Events.{EventType}
use midscale.Relay.Run.{
  Request, create, activate, expire, fail, stats, cleanup, fallback, apply, run,
}

-- Waiting, in use, over.
abbrev pub rank : RelayState → ℕ
rank pending = 1
rank active = 2
rank expired = 3
rank failed = 3

abbrev rank_of : Option RelaySession → ℕ
rank_of none = 0
rank_of (some s) = rank s.state

-- How far the session with id `k` has come; 0 if there is none.
abbrev pub progress : ℕ → List RelaySession → ℕ
progress k rows = rank_of (find (has_id k) rows)

module _ (k : ℕ) (p : RelaySession → Bool) (f : RelaySession → RelaySession)
    (same : (s : RelaySession) → (f s).id ≡ s.id)
    (forward : (s : RelaySession) → p s ≡ true → rank s.state ≤ rank (f s).state) where
  progress-update_first :
      (rows : List RelaySession) → progress k rows ≤ progress k (update_first p f rows)
  progress-update_first [] = omega arith
  progress-update_first (s ∷ rows) = ground (arith, same s, forward s, progress-update_first rows)

  progress-update_where :
      (rows : List RelaySession) → progress k rows ≤ progress k (update_where p f rows)
  progress-update_where [] = omega arith
  progress-update_where (s ∷ rows) = ground (arith, same s, forward s, progress-update_where rows)

progress-append :
    (k : ℕ) (rows : List RelaySession) (s : RelaySession)
    → progress k rows ≤ progress k (rows ++ s ∷ [])
progress-append k [] s = omega arith
progress-append k (x ∷ rows) s = ground (arith, progress-append k rows s)

activated-forward :
    (j now : ℕ) (s : RelaySession) → awaits j s ≡ true → rank s.state ≤ rank (activated now s).state
activated-forward j now s h = ground arith

rank-le : (t : RelayState) → rank t ≤ 3
rank-le t = ground arith

module _ (k : ℕ) where
  activate-progress :
      (j now : ℕ) (bus : Bool) (w : World)
      → progress k w.sessions ≤ progress k (activate_relay_session j now bus w).1.sessions
  unfolding activate_relay_session
  activate-progress j now bus w = elim (Option-cases (find (awaits j) w.sessions)) [
    | inl e ↦ rw (e, activate_relay_session) (omega arith)
    | inr (s, e) ↦
        rw (e, activate_relay_session)
          (progress-update_first k (awaits j) (activated now) (λ s. refl) (activated-forward j now)
            w.sessions)
  ]

  end_session-progress :
      (end : RelayState) (kind : EventType) (j now : ℕ) (bus : Bool) (w : World)
      → rank end ≡ 3
      → progress k w.sessions ≤ progress k (end_session end kind j now bus w).1.sessions
  end_session-progress end kind j now bus w last =
      elim (Option-cases (find (has_id j) w.sessions)) [
        | inl e ↦ rw (e, end_session) (omega arith)
        | inr (s, e) ↦
            rw (e, end_session)
              (progress-update_first k (has_id j) (ended end now) (λ s. refl)
                (λ s h. rw last (rank-le s.state)) w.sessions)
      ]

  stats-progress :
      (j : ℕ) (tx rx : ℤ) (now : ℕ) (bus : Bool) (w : World)
      → progress k w.sessions ≤ progress k (update_relay_stats j tx rx now bus w).1.sessions
  unfolding update_relay_stats
  stats-progress j tx rx now bus w = elim (Option-cases (find (has_id j) w.sessions)) [
    | inl e ↦ rw (e, update_relay_stats) (omega arith)
    | inr (s, e) ↦
        rw (e, update_relay_stats)
          (progress-update_first k (has_id j) (counted tx rx now) (λ s. refl) (λ s h. omega arith)
            w.sessions)
  ]

  apply-progress :
      (r : Request) (w : World) → progress k w.sessions ≤ progress k (apply r w).sessions
  unfolding apply create_relay_session expire_relay_session fail_relay_session
      cleanup_expired_relays auto_create_relay_fallback
  apply-progress (create i now t bus a b region node) w = progress-append k w.sessions _
  apply-progress (activate j now bus) w = activate-progress j now bus w
  apply-progress (expire j now bus) w = end_session-progress expired _ j now bus w refl
  apply-progress (fail j now bus) w = end_session-progress failed _ j now bus w refl
  apply-progress (stats j tx rx now bus) w = stats-progress j tx rx now bus w
  apply-progress (cleanup now) w =
      progress-update_where k (is_stale now) (ended expired now) (λ s. refl)
        (λ s h. rank-le s.state) w.sessions
  apply-progress (fallback i now t bus a b) w = progress-append k w.sessions _

  -- Whatever requests are served, the session that an id names never goes back, neither from over to
  -- active or pending nor from active to pending, and never vanishes.
  pub run-progress :
      (rs : List Request) (w : World) → progress k w.sessions ≤ progress k (run rs w).sessions
  unfolding run
  run-progress [] w = omega arith
  run-progress (r ∷ rs) w = omega (arith, apply-progress r w, run-progress rs (apply r w))

abbrev pub is_expired : RelaySession → Bool
is_expired s = elim s.state [ expired ↦ true | _ ↦ false ]

module _ (now : ℕ) where
  stale-after :
      (rows : List RelaySession)
      → count (is_stale now) (update_where (is_stale now) (ended expired now) rows) ≡ 0
  stale-after [] = refl
  stale-after (s ∷ rows) = ground (arith, stale-after rows)

  expired-after :
      (rows : List RelaySession)
      → count is_expired (update_where (is_stale now) (ended expired now) rows)
        ≡ count is_expired rows + count (is_stale now) rows
  expired-after [] = refl
  expired-after (s ∷ rows) = ground (arith, expired-after rows)

  fresh-after :
      (rows : List RelaySession)
      → keep
          (λ s. not (is_stale now s) && not (is_expired s))
          (update_where (is_stale now) (ended expired now) rows)
        ≡ keep (λ s. not (is_stale now s) && not (is_expired s)) rows
  fresh-after [] = refl
  fresh-after (s ∷ rows) = ground (arith, fresh-after rows)

  -- A cleanup returns the number of pending or active rows whose deadline has passed, leaves no such
  -- row, adds exactly that many expired rows, and leaves every other row that is not expired as it was.
  cleanup_lem :
      (w : World)
      → let (n, w') = cleanup_expired_relays now w in
        (n ≡ count (is_stale now) w.sessions)
        × (count (is_stale now) w'.sessions ≡ 0)
        × (count is_expired w'.sessions ≡ count is_expired w.sessions + n)
        × (keep (λ s. not (is_stale now s) && not (is_expired s)) w'.sessions
            ≡ keep (λ s. not (is_stale now s) && not (is_expired s)) w.sessions)
  unfolding cleanup_expired_relays
  cleanup_lem w = (
    length-keep-eq-count (is_stale now) w.sessions,
    stale-after w.sessions,
    rw length-keep-eq-count (expired-after w.sessions),
    fresh-after w.sessions,
  )
