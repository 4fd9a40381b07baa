-- ===== src/Traversal/Fallback.antt =====
-- When failed punches lead to a relay: `record_punch_result` of backend/app/services/nat.py.
use midscale.Prelude.{
  ℕ, ◌+◌, String, Bool, true, false, Option, none, some, List, [], ◌∷◌, ◌≡◌, refl, ◌∙◌, ap, arith,
  leb, find, update_first, find-some, find-update_first, ==_iff,
}
use midscale.Relay.{auto_create_relay_fallback}
use midscale.Traversal.{NatSession, Metadata, World, has_id}
use midscale.Traversal.Sessions.{Env, failed_by, failures, metadata_of, fall_back_if, fall_back}
use midscale.Traversal.Results.{record_punch_result, punch_failed}

-- One failed punch after the other, on the session `k`.
abbrev pub fail : Env → ℕ → Option String → World → World
fail env k error w = (record_punch_result env k false none none none error w).1

abbrev pub fail_all : Bool → ℕ → List (Env × Option String) → World → World
fail_all tracks k [] w = w
fail_all tracks k ((env, error) ∷ calls) w =
    fail_all tracks k calls (fail (record env { tracks = tracks }) k error w)

has_id_found :
    (k : ℕ) (rows : List NatSession) (s : NatSession) → find (has_id k) rows ≡ some s → s.id ≡ k
has_id_found k rows s e = ground (arith, find-some (has_id k) rows s e, ==_iff s.id k)

fall_back_if-sessions :
    (b : Bool) (env : Env) (s : NatSession) (w : World)
    → (fall_back_if b env s w).sessions ≡ w.sessions
unfolding fall_back_if fall_back
fall_back_if-sessions true env s w = refl
fall_back_if-sessions false env s w = refl

threshold : (n : ℕ) → leb 2 (n + 1 + 1) ≡ true
threshold n = ground arith

-- What one failure does, with the session that the query finds.
module _ (env : Env) (k : ℕ) (error : Option String) (w : World) (s : NatSession)
    (e : find (has_id k) w.sessions ≡ some s) where
  fail-is : fail env k error w ≡ (punch_failed env error s w).1
  unfolding record_punch_result
  fail-is = rw (e, fail, record_punch_result) refl

  fail-sessions :
      (fail env k error w).sessions
      ≡ update_first (has_id k) (failed_by env.tracks error env.now) w.sessions
  unfolding punch_failed
  fail-sessions =
      rw (fail-is, punch_failed, fall_back_if-sessions, has_id_found k w.sessions s e) refl

  -- The session is the first with its id afterwards too.
  fail-found :
      find (has_id k) (fail env k error w).sessions ≡ some (failed_by env.tracks error env.now s)
  fail-found = rw fail-sessions (
      find-update_first (has_id k) (failed_by env.tracks error env.now) w.sessions s e
        (find-some (has_id k) w.sessions s e))

  -- With a dict in memory that counts no failure before this one, no relay session is made.
  fail-first : failures (metadata_of s.extra_metadata) ≡ 0 → (fail env k error w).relay ≡ w.relay
  unfolding punch_failed fall_back_if
  fail-first none_before = rw (fail-is, punch_failed, none_before) refl

  fail-again :
      (n : ℕ)
      → failures (metadata_of s.extra_metadata) ≡ n + 1
      → (fail env k error w).relay
        ≡ (auto_create_relay_fallback env.new_id env.now env.token env.event_bus
            s.initiator_device_id s.target_device_id w.relay).1
  unfolding punch_failed fall_back_if fall_back
  fail-again n before = rw (fail-is, punch_failed, before, fall_back_if, threshold n) refl

-- A session whose dict counts no failure yet never gets a relay session, however many punches fail,
-- if writes into the dict are not seen.
pub fail_all-no_relay :
    (k : ℕ) (calls : List (Env × Option String)) (w : World) (s : NatSession) (m : Metadata)
    → find (has_id k) w.sessions ≡ some s
    → s.extra_metadata ≡ some m
    → failures m ≡ 0
    → (fail_all false k calls w).relay ≡ w.relay
fail_all-no_relay k [] w s m e has zero = refl
fail_all-no_relay k ((env, error) ∷ calls) w s m e has zero =
    fail_all-no_relay k calls (fail (record env { tracks = false }) k error w)
      (failed_by false error env.now s) m (fail-found (record env { tracks = false }) k error w s e)
      (rw has refl) zero
    ∙ fail-first (record env { tracks = false }) k error w s e (rw has zero)

-- If writes into the dict are seen, the second failure of a session makes a relay session between its
-- two devices, and the first makes none, where its dict counts no failure yet.
fail_all-relay :
    (k : ℕ) (env env' : Env) (error error' : Option String) (w : World) (s : NatSession)
    (m : Metadata)
    → find (has_id k) w.sessions ≡ some s
    → s.extra_metadata ≡ some m
    → failures m ≡ 0
    → ((fail_all true k ((env, error) ∷ []) w).relay ≡ w.relay)
      × ((fail_all true k ((env, error) ∷ (env', error') ∷ []) w).relay
          ≡ (auto_create_relay_fallback env'.new_id env'.now env'.token env'.event_bus
              s.initiator_device_id s.target_device_id w.relay).1)
fail_all-relay k env env' error error' w s m e has zero = (
  fail-first (record env { tracks = true }) k error w s e (rw has zero),
  fail-again (record env' { tracks = true }) k error'
        (fail (record env { tracks = true }) k error w) (failed_by true error env.now s)
        (fail-found (record env { tracks = true }) k error w s e) 0 (rw (has, zero) refl)
      ∙ ap
          (λ r.
            (auto_create_relay_fallback env'.new_id env'.now env'.token env'.event_bus
              s.initiator_device_id s.target_device_id r).1)
          (fail-first (record env { tracks = true }) k error w s e (rw has zero)),
)
