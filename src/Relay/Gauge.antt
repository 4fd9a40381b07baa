-- ===== src/Relay/Gauge.antt =====
-- The gauge RELAY_CONNECTIONS_ACTIVE and the active rows of backend/app/services/relay.py.
use midscale.Prelude.{
  String, ℕ, ◌+◌, Bool, true, false, some, List, [], ◌∷◌, ◌≡◌, refl, ap, inl, inr, arith, keep,
  find, count, update_where, update_first, if◌then◌else◌, count-append, count-update_first,
  find-some, Option-cases,
}
use midscale.Prelude.Int.{ℤ, pos, int_laws, pos_add}
use midscale.Relay.{
  RelayState, expired, failed, RelaySession, World, is_active, end_session, is_stale, ended, awaits,
  activated, has_id, counted, create_relay_session, activate_relay_session, expire_relay_session,
  fail_relay_session, update_relay_stats, cleanup_expired_relays, auto_create_relay_fallback,
}
use midscale.Events.{EventType, relay_expired, relay_failed}
use midscale.Relay.Run.{
  Request, create, activate, expire, fail, stats, cleanup, fallback, apply, run,
}

abbrev pub active_rows : List RelaySession → ℕ
active_rows = count (λ s. is_active s.state)

-- The gauge is the number of active rows.
abbrev pub IsCounted : World → Type 0
IsCounted w = w.connections_active ≡ pos (active_rows w.sessions)

awaits-inactive : (k : ℕ) (s : RelaySession) → awaits k s ≡ true → is_active s.state ≡ false
awaits-inactive k s h = ground arith

-- Rewriting the row that was found moves the count by that row alone.
module _ (p : RelaySession → Bool) (f : RelaySession → RelaySession) (rows : List RelaySession)
    (s : RelaySession) (found : find p rows ≡ some s) where
  active_rows-update_first :
      active_rows (update_first p f rows) + (if is_active s.state then 1 else 0)
      ≡ active_rows rows + (if is_active (f s).state then 1 else 0)
  active_rows-update_first = count-update_first (λ s. is_active s.state) p f rows s found

activate-IsCounted :
    (k now : ℕ) (bus : Bool) (w : World)
    → IsCounted w
    → IsCounted (activate_relay_session k now bus w).1
unfolding activate_relay_session
activate-IsCounted k now bus w h = elim (Option-cases (find (awaits k) w.sessions)) [
  | inl e ↦ rw (e, activate_relay_session) h
  | inr (s, e) ↦
      rw (e, activate_relay_session)
        (rw (h, pos_add)
          (ap pos (
            ground (
              arith,
              active_rows-update_first (awaits k) (activated now) w.sessions s e,
              awaits-inactive k s,
              find-some (awaits k) w.sessions s e,
            ))))
]

end_session-IsCounted :
    (end : RelayState) (kind : EventType) (k now : ℕ) (bus : Bool) (w : World)
    → is_active end ≡ false
    → IsCounted w
    → IsCounted (end_session end kind k now bus w).1
end_session-IsCounted end kind k now bus w fin h =
    elim (Option-cases (find (has_id k) w.sessions)) [
      | inl e ↦ rw (e, end_session) h
      | inr (s, e) ↦
          grind (int_laws, active_rows-update_first (has_id k) (ended end now) w.sessions s e)
    ]

-- A cleanup takes exactly the active rows that it expires off the count.
active_rows-expire :
    (now : ℕ) (rows : List RelaySession)
    → active_rows (update_where (is_stale now) (ended expired now) rows)
        + active_rows (keep (is_stale now) rows)
      ≡ active_rows rows
active_rows-expire now [] = refl
active_rows-expire now (s ∷ rows) = ground (arith, active_rows-expire now rows)

cleanup-IsCounted : (now : ℕ) (w : World) → IsCounted w → IsCounted (cleanup_expired_relays now w).1
unfolding cleanup_expired_relays
cleanup-IsCounted now w h = grind (int_laws, active_rows-expire now w.sessions)

stats-IsCounted :
    (k : ℕ) (tx rx : ℤ) (now : ℕ) (bus : Bool) (w : World)
    → IsCounted w
    → IsCounted (update_relay_stats k tx rx now bus w).1
unfolding update_relay_stats
stats-IsCounted k tx rx now bus w h = elim (Option-cases (find (has_id k) w.sessions)) [
  | inl e ↦ rw (e, update_relay_stats) h
  | inr (s, e) ↦
      rw (e, update_relay_stats)
        (rw h (
          ap pos (
            omega (arith, active_rows-update_first (has_id k) (counted tx rx now) w.sessions s e))))
]

create-IsCounted :
    (i now : ℕ) (t : String) (bus : Bool) (a b : ℕ) (region node : String) (w : World)
    → IsCounted w
    → IsCounted (create_relay_session i now t bus a b region node w).1
unfolding create_relay_session
create-IsCounted i now t bus a b region node w h = rw h (
    ap pos
      (omega (arith, count-append (λ (s : RelaySession). is_active s.state) w.sessions (row ∷ []))))
  where
    row : RelaySession
    row = (create_relay_session i now t bus a b region node w).0

apply-IsCounted : (r : Request) (w : World) → IsCounted w → IsCounted (apply r w)
unfolding apply expire_relay_session fail_relay_session auto_create_relay_fallback
apply-IsCounted (create i now t bus a b region node) w h =
    create-IsCounted i now t bus a b region node w h
apply-IsCounted (activate k now bus) w h = activate-IsCounted k now bus w h
apply-IsCounted (expire k now bus) w h =
    end_session-IsCounted expired relay_expired k now bus w refl h
apply-IsCounted (fail k now bus) w h = end_session-IsCounted failed relay_failed k now bus w refl h
apply-IsCounted (stats k tx rx now bus) w h = stats-IsCounted k tx rx now bus w h
apply-IsCounted (cleanup now) w h = cleanup-IsCounted now w h
apply-IsCounted (fallback i now t bus a b) w h =
    create-IsCounted i now t bus a b "default" "relay0" w h

-- From a world whose gauge counts the active rows, whatever requests are served in whatever order,
-- the gauge is the number of active rows afterwards too, so it never falls below zero.
pub run-IsCounted : (rs : List Request) (w : World) → IsCounted w → IsCounted (run rs w)
unfolding run
run-IsCounted [] w h = h
run-IsCounted (r ∷ rs) w h = run-IsCounted rs (apply r w) (apply-IsCounted r w h)
