-- ===== src/Daemon/Tests.antt =====
-- Reports of daemons in sequence, and the theorems about them at concrete rows.
use midscale.Prelude.{ℕ, true, none, some, List, [], ◌∷◌, ◌≡◌, refl, all, map, count, ◌+◌, ◌≤◌}
use midscale.Prelude.Int.{pos, ◌+ℤ◌, ◌-ℤ◌}
use midscale.Scoring.{compute_endpoint_score, raw_score}
use midscale.Api.{Device, Db, ok, crash, settle}
use midscale.Daemon.{
  is_probed, Probe, stale_endpoint_cleanup, report_endpoint, process_probe_result,
}
use midscale.Daemon.Reports.{Report, heartbeat, endpoint, probe, handle, run, in_range, run_range}
use midscale.Daemon.Repeats.{report_twice-process_probe_result}

abbrev device : ℕ → Device
device k = record {
  id = k;
  name = "node";
  user_id = none;
  network_id = 5;
  public_key = some "pk";
  private_key_enc = none;
  ip_address = some "10.0.0.2";
  dns_enabled = true;
  is_active = true;
  is_node_owned = true;
  device_token_hash = none;
  device_token_prefix = none;
  enrollment_status = "active";
  enrolled_at = none;
  last_seen_at = none;
  revoked_at = none;
  tags = none;
  exit_node_id = none;
}

abbrev start : Db
start = record {
  networks = [];
  devices = device 1 ∷ device 2 ∷ [];
  routes = [];
  preauth_keys = [];
  dns_entries = [];
  endpoints = [];
  audit = [];
}

abbrev peer_probe : Probe
peer_probe = record {
  peer_device_id = 2;
  endpoint = "203.0.113.2";
  reachable = true;
  latency_ms = some (pos 30);
  source = "probe";
  port = pos 51820;
  local_ip = none;
  public_ip = none;
}

abbrev reports : List Report
reports =
    heartbeat 1 none none 10
    ∷ probe peer_probe 50 20
    ∷ probe peer_probe 51 30
    ∷ endpoint 52 1 "203.0.113.1" "stun" (pos 51820) none none (pos 100) 40
    ∷ []

reported : Db
unfolding run handle
reported = run reports start

-- The second probe updates the row of the first.
reported_scores : map (λ e. e.score) reported.endpoints ≡ pos 51 ∷ pos 0 ∷ []
unfolding reported compute_endpoint_score raw_score ◌+ℤ◌ ◌-ℤ◌
reported_scores = refl

cleaned : (stale_endpoint_cleanup 30 1835 reported.endpoints).0 ≡ 1
unfolding reported stale_endpoint_cleanup
cleaned = refl

once : Db
unfolding report_endpoint
once =
    settle start
      (report_endpoint 60 2 "203.0.113.2" "stun" (pos 51820) none none (pos 100) 10 start)

once_ok :
    report_endpoint 60 2 "203.0.113.2" "stun" (pos 51820) none none (pos 100) 10 start ≡ ok once
unfolding once
once_ok = refl

twice : Db
unfolding once run handle
twice =
    let between = run (heartbeat 1 none none 11 ∷ []) once in
    settle between
      (report_endpoint 61 2 "203.0.113.2" "stun" (pos 51820) none none (pos 100) 10 between)

twice_ok :
    report_endpoint 61 2 "203.0.113.2" "stun"
      (pos 51820)
      none
      none
      (pos 100)
      10
      (run (heartbeat 1 none none 11 ∷ []) once)
    ≡ ok twice
unfolding twice
twice_ok = refl

run_range_example : all in_range (run reports start).endpoints ≡ true
run_range_example = run_range reports start refl

report_twice-process_probe_result_example :
    (count (is_probed peer_probe) twice.endpoints
      ≡ count (is_probed peer_probe) (run (heartbeat 1 none none 11 ∷ []) once).endpoints + 1)
    × (2 ≤ count (is_probed peer_probe) (run reports twice).endpoints)
    × (process_probe_result peer_probe 70 20 (run reports twice) ≡ crash)
report_twice-process_probe_result_example =
    report_twice-process_probe_result peer_probe 60 61 70 10 10 20 "stun" "stun" (pos 51820)
      (pos 51820) none none none none (pos 100) (pos 100) (heartbeat 1 none none 11 ∷ []) reports
      start once twice once_ok twice_ok
