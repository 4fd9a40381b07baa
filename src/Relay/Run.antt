-- ===== src/Relay/Run.antt =====
-- The relay service as a state machine: one request for each method that writes, and a run of
-- requests from a world. backend/app/services/relay.py.
use midscale.Prelude.{ℕ, String, Bool, List, [], ◌∷◌}
use midscale.Prelude.Int.{ℤ}
use midscale.Relay.{
  World, create_relay_session, activate_relay_session, expire_relay_session, fail_relay_session,
  update_relay_stats, cleanup_expired_relays, auto_create_relay_fallback,
}

pub data Request : Type 0 where
  create :
      (new_id now : ℕ) (token : String) (event_bus : Bool) (initiator target : ℕ)
      (region node : String)
      → Request
  activate : (k now : ℕ) (event_bus : Bool) → Request
  expire : (k now : ℕ) (event_bus : Bool) → Request
  fail : (k now : ℕ) (event_bus : Bool) → Request
  stats : (k : ℕ) (tx rx : ℤ) (now : ℕ) (event_bus : Bool) → Request
  cleanup : (now : ℕ) → Request
  fallback : (new_id now : ℕ) (token : String) (event_bus : Bool) (initiator target : ℕ) → Request

unfoldable pub apply : Request → World → World
apply (create i now t bus a b region node) w =
    (create_relay_session i now t bus a b region node w).1
apply (activate k now bus) w = (activate_relay_session k now bus w).1
apply (expire k now bus) w = (expire_relay_session k now bus w).1
apply (fail k now bus) w = (fail_relay_session k now bus w).1
apply (stats k tx rx now bus) w = (update_relay_stats k tx rx now bus w).1
apply (cleanup now) w = (cleanup_expired_relays now w).1
apply (fallback i now t bus a b) w = (auto_create_relay_fallback i now t bus a b w).1

unfoldable pub run : List Request → World → World
run [] w = w
run (r ∷ rs) w = run rs (apply r w)
