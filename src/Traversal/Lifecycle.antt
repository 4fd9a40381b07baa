-- ===== src/Traversal/Lifecycle.antt =====
-- How the sessions of backend/app/services/nat.py start and expire, and what the gauge
-- NAT_SESSION_ACTIVE misses.
use mathlib.Core.Option
use midscale.Prelude.{
  ℕ, ◌<◌, Bool, true, false, not, Option, none, some, List, [], ◌∷◌, ◌≡◌, refl, sym, ◌∙◌,
  if◌then◌else◌, arith, inl, inr, length, keep, count, find, find-some, update_where,
  length-keep-eq-count, ◌&&◌, Option-cases, ◌==◌, ==_iff,
}
use midscale.Prelude.Int.{ℤ, pos, ◌+ℤ◌, ◌-ℤ◌, int_laws}
use midscale.Traversal.{
  NatState, pending, expired, NatSession, World, can_start, started, is_stale, start_punch,
  expire_stale_sessions,
}

started_from :
    (k now : ℕ) (t : NatSession)
    → can_start k now t ≡ true
    → (t.id ≡ k) × (t.state ≡ pending) × (now < t.expires_at)
started_from k now t h = ground (arith, ==_iff t.id k)

start_punch-answer :
    (k now : ℕ) (event_bus : Bool) (w : World)
    → (start_punch k now event_bus w).0
      ≡ Option.map (started now) (find (can_start k now) w.sessions)
unfolding start_punch
start_punch-answer k now bus w = elim (Option-cases (find (can_start k now) w.sessions)) [
  | inl e ↦ rw (e, start_punch) refl
  | inr (t, e) ↦ rw (e, start_punch) refl
]

from_map :
    (f : NatSession → NatSession) (o : Option NatSession) (s : NatSession)
    → Option.map f o ≡ some s
    → (t : NatSession) × (o ≡ some t) × (s ≡ f t)
from_map f none s h = cc
from_map f (some t) s h = (t, refl, cc)

-- A punch that starts does so from a pending session with the id of the call, before its deadline,
-- and the call answers with that session in the state `coordinating`.
start_punch_lem :
    (k now : ℕ) (event_bus : Bool) (w : World) (s : NatSession)
    → (start_punch k now event_bus w).0 ≡ some s
    → (t : NatSession) × (find (can_start k now) w.sessions ≡ some t)
      × ((t.id ≡ k) × (t.state ≡ pending) × (now < t.expires_at))
      × (s ≡ started now t)
start_punch_lem k now bus w s h =
    let (t, e, same) =
      from_map (started now) (find (can_start k now) w.sessions) s
        (sym (start_punch-answer k now bus w) ∙ h) in
    (t, e, started_from k now t (find-some (can_start k now) w.sessions t e), same)

lowered : (a : ℤ) (n : ℕ) → (if n == 0 then a else a -ℤ pos n) +ℤ pos n ≡ a
lowered a n = grind (int_laws, ==_iff n 0)

abbrev pub is_expired : NatState → Bool
is_expired expired = true
is_expired _ = false

module _ (now : ℕ) where
  stale-after :
      (rows : List NatSession)
      → count
          (is_stale now)
          (update_where (is_stale now) (λ s. record s { state = expired; updated_at = now }) rows)
        ≡ 0
  stale-after [] = refl
  stale-after (s ∷ rows) = ground (arith, stale-after rows)

  others-after :
      (rows : List NatSession)
      → keep
          (λ s. not (is_expired s.state))
          (update_where (is_stale now) (λ s. record s { state = expired; updated_at = now }) rows)
        ≡ keep (λ s. not (is_stale now s) && not (is_expired s.state)) rows
  others-after [] = refl
  others-after (s ∷ rows) = ground (arith, others-after rows)

  -- An expiry returns the number of open sessions whose deadline has passed, leaves no such session,
  -- keeps every other session that is not expired as it was, and lowers the gauge by that number.
  pub expire_stale_sessions_lem :
      (w : World)
      → let (n, w') = expire_stale_sessions now w in
        (n ≡ count (is_stale now) w.sessions)
        × (count (is_stale now) w'.sessions ≡ 0)
        × (keep (λ s. not (is_expired s.state)) w'.sessions
            ≡ keep (λ s. not (is_stale now s) && not (is_expired s.state)) w.sessions)
        × (w'.session_active +ℤ pos n ≡ w.session_active)
  unfolding expire_stale_sessions
  expire_stale_sessions_lem w = (
    length-keep-eq-count (is_stale now) w.sessions,
    stale-after w.sessions,
    others-after w.sessions,
    lowered w.session_active (length (keep (is_stale now) w.sessions)),
  )
