-- ===== src/Traversal/Tests.antt =====
-- Two devices that punch, and the theorems about them: backend/app/services/nat.py.
use midscale.Prelude.{
  ℕ, String, true, false, not, none, some, [], ◌∷◌, ◌≡◌, refl, count, any, find, keep, ◌+◌, ◌&&◌,
  ◌==◌,
}
use midscale.Prelude.Int.{ℤ, pos, ◌≤ℤ◌, ◌+ℤ◌}
use midscale.Endpoints.{DeviceEndpoint}
use midscale.Scoring.{score_max}
use midscale.Relay
use midscale.Relay.{auto_create_relay_fallback}
use midscale.Traversal.{
  NatState, pending, failed, NatSession, World, no_metadata, has_id, started, start_punch, is_stale,
  expire_stale_sessions,
}
use midscale.Traversal.Promote.{result, promote_endpoint, is_used, is_active_of, promote_found}
use midscale.Traversal.Sessions.{Env, returned, failed_by}
use midscale.Traversal.Results.{record_punch_result}
use midscale.Traversal.Fallback.{fail_all, fail_all-no_relay}
use midscale.Traversal.Preferred.{promote_endpoint-preferred}
use midscale.Traversal.Lifecycle.{is_expired, expire_stale_sessions_lem}
use midscale.Traversal.Gauge.{open_sessions, record_punch_result-ends}

abbrev row : NatState → NatSession
row t = record {
  id = 1;
  initiator_device_id = 10;
  target_device_id = 20;
  state = t;
  selected_candidate = none;
  connectivity_established = false;
  extra_metadata = some no_metadata;
  created_at = 0;
  updated_at = 0;
  expires_at = 300;
}

abbrev endpoint_at : ℕ → String → ℤ → DeviceEndpoint
endpoint_at k host score = record {
  id = k;
  device_id = 20;
  endpoint = host;
  port = pos 5000;
  source = "stun";
  is_active = true;
  last_seen = none;
  priority = pos 10;
  score = score;
  reachable = false;
  latency_ms = none;
  success_count = 0;
  failure_count = 0;
  last_probe_at = none;
  local_ip = none;
  public_ip = none;
}

abbrev quiet : Relay.World
quiet = record {
  sessions = [];
  connections_active = pos 0;
  total_pending = 0;
  total_active = 0;
  total_expired = 0;
  fallback_total = 0;
  events = [];
}

abbrev world : World
world = record {
  sessions = row pending ∷ [];
  endpoints = endpoint_at 5 "a.example" (pos 50) ∷ endpoint_at 6 "b.example" (pos 40) ∷ [];
  devices = (10, 1) ∷ (20, 1) ∷ [];
  session_active = pos 1;
  punch_success = 0;
  punch_failed = 0;
  connectivity_success = 0;
  connectivity_failed = 0;
  score_updates = 0;
  relay = quiet;
  relay_server = none;
  events = [];
}

abbrev env : Env
env = record {
  now = 100;
  new_id = 7;
  token = "t";
  event_bus = true;
  tracks = false;
  str = λ n. "seven";
  build_config_v2 = λ w d. some ("2", "h");
}

starts : (start_punch 1 100 true world).0 ≡ some (started 100 (row pending))
unfolding start_punch
starts = refl

expire_stale_sessions_lem_example :
    let (n, w') = expire_stale_sessions 300 world in
    (n ≡ count (is_stale 300) world.sessions)
    × (count (is_stale 300) w'.sessions ≡ 0)
    × (keep (λ s. not (is_expired s.state)) w'.sessions
        ≡ keep (λ s. not (is_stale 300 s) && not (is_expired s.state)) world.sessions)
    × (w'.session_active +ℤ pos n ≡ world.session_active)
expire_stale_sessions_lem_example = expire_stale_sessions_lem 300 world

fail_all-no_relay_example :
    (fail_all false 1 ((env, some "timeout") ∷ (env, none) ∷ (env, none) ∷ []) world).relay ≡ quiet
fail_all-no_relay_example =
    fail_all-no_relay 1 ((env, some "timeout") ∷ (env, none) ∷ (env, none) ∷ []) world (row pending)
      no_metadata refl refl refl

-- The first failure of the pending session.
punched : World
unfolding record_punch_result
punched = (record_punch_result env 1 false none none none (some "timeout") world).1

punched_ok :
    record_punch_result env 1 false none none none (some "timeout") world
    ≡ (returned (some (failed_by false (some "timeout") 100 (row pending))), punched)
unfolding punched
punched_ok = refl

record_punch_result-ends_example :
    (r : NatSession) × (find (has_id 1) punched.sessions ≡ some r)
    × (r.state ≡ failed)
    × (open_sessions punched + 1 ≡ open_sessions world)
    × (punched.session_active ≡ pos 1)
record_punch_result-ends_example =
    record_punch_result-ends env 1 false none none none (some "timeout") (row pending) world punched
      _ refl punched_ok

abbrev promoted_world : World
promoted_world = (promote_endpoint 20 "a.example" (pos 5000) none 100 world).1

promotes :
    promote_endpoint 20 "a.example" (pos 5000) none 100 world
    ≡ (result (pos 80) true, promoted_world)
unfolding promote_endpoint promote_found ◌+ℤ◌
promotes = refl

promote_endpoint-preferred_example :
    (pos 80 ≤ℤ score_max)
    × ((k : ℕ) × (any (λ e. is_used 20 "a.example" (pos 5000) e && e.id == k) world.endpoints
          ≡ true)
        × (count (λ e. is_active_of 20 e && not (e.id == k)) promoted_world.endpoints ≡ 0))
promote_endpoint-preferred_example =
    promote_endpoint-preferred 20 "a.example" (pos 5000) none 100 world (pos 80) promoted_world
      promotes
