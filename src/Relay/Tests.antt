-- ===== src/Relay/Tests.antt =====
-- Runs of backend/app/services/relay.py, and the theorems about it at concrete worlds.
use midscale.Prelude.{true, List, [], ◌∷◌, ◌≡◌, ◌≤◌, refl, length}
use midscale.Prelude.Int.{pos, ◌+ℤ◌, ◌-ℤ◌}
use midscale.Relay.{
  World, create_relay_session, activate_relay_session, fail_relay_session, cleanup_expired_relays,
}
use midscale.Relay.Run.{Request, create, activate, fail, cleanup, apply, run}
use midscale.Relay.Gauge.{IsCounted, run-IsCounted}
use midscale.Relay.Lifecycle.{progress, run-progress}

abbrev start : World
start = record {
  sessions = [];
  connections_active = pos 0;
  total_pending = 0;
  total_active = 0;
  total_expired = 0;
  fallback_total = 0;
  events = [];
}

-- Two sessions are opened and used; one fails, the other runs out a day later.
abbrev opening : List Request
opening =
    create 1 0 "t1" true 7 8 "default" "relay0"
    ∷ create 2 5 "t2" true 8 9 "default" "relay0"
    ∷ activate 1 10 true
    ∷ activate 2 11 true
    ∷ fail 1 20 true
    ∷ []

abbrev day : List Request
day = cleanup 86405 ∷ activate 2 86406 true ∷ []

opened : World
unfolding run apply create_relay_session activate_relay_session fail_relay_session ◌+ℤ◌ ◌-ℤ◌
opened = run opening start

opened_gauge : opened.connections_active ≡ pos 1
unfolding opened
opened_gauge = refl

opened_events : length opened.events ≡ 5
unfolding opened
opened_events = refl

day_over : progress 2 (run day opened).sessions ≡ 3
unfolding opened cleanup_expired_relays
day_over = refl

run-IsCounted_example : IsCounted (run opening start)
run-IsCounted_example = run-IsCounted opening start refl

run-progress_example : progress 1 opened.sessions ≤ progress 1 (run day opened).sessions
run-progress_example = run-progress 1 day opened
