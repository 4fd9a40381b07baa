-- ===== src/Daemon.antt =====
-- What a daemon reports to the backend: backend/app/services/daemon.py. Ids of new rows and the time,
-- in whole seconds, are arguments.
pub mod Reports
pub mod Repeats
pub mod Stale
mod Tests
use midscale.Prelude.{
  ℕ, String, Bool, true, false, not, Option, none, some, List, [], ◌∷◌, ◌++◌, ◌&&◌, ◌+◌, ◌*◌, ◌≡◌,
  keep, find, any, count, update_first, update_where, str_eq, ltb, ◌==◌, if◌then◌else◌,
}
use midscale.Prelude.Int.{ℤ, pos}
use midscale.Endpoints.{DeviceEndpoint}
use midscale.Scoring.{compute_endpoint_score, select_best_endpoint}
use midscale.Api.{Device, Db, Reply, ok, error, crash, ◌>>=◌, ◌>>◌, found, one_or_none, device_of}

abbrev pub with_endpoints : List DeviceEndpoint → Db → Db
with_endpoints eps db = record db { endpoints = eps }

-- `if value and value != old`
abbrev pub or_old : Option String → Option String → Option String
or_old none old = old
or_old (some s) old = if str_eq s "" then old else some s

unfoldable pub process_heartbeat :
    (device_id : ℕ) (public_key ip_address : Option String) (now : ℕ) → Db → Reply Db
process_heartbeat k public_key ip_address now db = do
  d ← found (device_of k db) 404
  ok (record db {
    devices =
        update_first (λ d. d.id == k)
          (λ d. record d {
            last_seen_at = some now;
            public_key = or_old public_key d.public_key;
            ip_address = or_old ip_address d.ip_address;
          })
          db.devices;
  })

-- A new row, its other columns at their defaults.
abbrev pub new_endpoint :
    (new_id device_id : ℕ) (endpoint source : String) (port : ℤ)
    (local_ip public_ip : Option String) (priority : ℤ) (now : ℕ)
    → DeviceEndpoint
new_endpoint new_id device_id endpoint source port local_ip public_ip priority now = record {
  id = new_id;
  device_id = device_id;
  endpoint = endpoint;
  source = source;
  port = port;
  local_ip = local_ip;
  public_ip = public_ip;
  priority = priority;
  is_active = true;
  last_seen = some now;
  latency_ms = none;
  reachable = false;
  last_probe_at = none;
  failure_count = 0;
  success_count = 0;
  score = pos 0;
}

unfoldable pub report_endpoint :
    (new_id device_id : ℕ) (endpoint source : String) (port : ℤ)
    (local_ip public_ip : Option String) (priority : ℤ) (now : ℕ)
    → Db
    → Reply Db
report_endpoint new_id k endpoint source port local_ip public_ip priority now db = do
  d ← found (device_of k db) 404
  ok (
      with_endpoints
        (db.endpoints
          ++ new_endpoint new_id k endpoint source port local_ip public_ip priority now ∷ [])
        db)

-- `last_seen < now - max_age`, which no row without a time satisfies.
abbrev pub seen_before : (max_age_minutes now : ℕ) → Option ℕ → Bool
seen_before age now none = false
seen_before age now (some t) = ltb (t + age * 60) now

-- An active endpoint that was last seen more than `max_age_minutes` ago.
abbrev pub is_stale : (max_age_minutes now : ℕ) → DeviceEndpoint → Bool
is_stale age now e = e.is_active && seen_before age now e.last_seen

unfoldable pub stale_endpoint_cleanup :
    (max_age_minutes now : ℕ) → List DeviceEndpoint → ℕ × List DeviceEndpoint
stale_endpoint_cleanup age now eps = (
  count (is_stale age now) eps,
  update_where (is_stale age now) (λ e. record e { is_active = false }) eps,
)

-- A probe of a peer's endpoint, as the daemon reports it.
pub record Probe : Type 0 where
  pub peer_device_id : ℕ
  pub endpoint : String
  pub reachable : Bool
  pub latency_ms : Option ℤ
  pub source : String
  pub port : ℤ
  pub local_ip : Option String
  pub public_ip : Option String

-- The answer, with the value that the gauge ENDPOINT_REACHABLE is set to.
pub record ProbeResult : Type 0 where
  pub endpoint_id : ℕ
  pub score : ℤ
  pub preferred : Bool
  pub reachable_count : ℕ

abbrev pub is_probed : Probe → DeviceEndpoint → Bool
is_probed p e = e.device_id == p.peer_device_id && str_eq e.endpoint p.endpoint

-- The counters and the score of a row that exists.
abbrev pub probed : Probe → (now : ℕ) → DeviceEndpoint → DeviceEndpoint
probed p now e =
    let successes = if p.reachable then e.success_count + 1 else e.success_count in
    let failures = if p.reachable then e.failure_count else e.failure_count + 1 in
    record e {
      reachable = p.reachable;
      last_probe_at = some now;
      latency_ms = p.latency_ms;
      success_count = successes;
      failure_count = failures;
      score = compute_endpoint_score p.reachable p.latency_ms failures successes e.priority;
      last_seen = some now;
    }

abbrev pub first_probe : Probe → (new_id now : ℕ) → DeviceEndpoint
first_probe p new_id now =
    let failures = if p.reachable then 0 else 1 in
    let successes = if p.reachable then 1 else 0 in
    record (new_endpoint new_id p.peer_device_id p.endpoint p.source p.port p.local_ip p.public_ip
      (pos 100) now) {
        reachable = p.reachable;
        latency_ms = p.latency_ms;
        last_probe_at = some now;
        failure_count = failures;
        success_count = successes;
        score = compute_endpoint_score p.reachable p.latency_ms failures successes (pos 100);
      }

-- The row that the probe is written to, and the table with it.
abbrev pub write_probe :
    Probe
    → (new_id now : ℕ) → Option DeviceEndpoint
    → List DeviceEndpoint
    → DeviceEndpoint × List DeviceEndpoint
write_probe p new_id now none eps = let e = first_probe p new_id now in (e, eps ++ e ∷ [])
write_probe p new_id now (some e) eps =
    (probed p now e, update_first (λ x. x.id == e.id) (probed p now) eps)

abbrev pub is_best : Option DeviceEndpoint → (id : ℕ) → Bool
is_best none k = false
is_best (some e) k = e.id == k

-- A new row's device has to exist.
abbrev pub insertable : Probe → Option DeviceEndpoint → Db → Reply (Unit {0})
insertable p (some e) db = ok tt
insertable p none db = if any (λ d. d.id == p.peer_device_id) db.devices then ok tt else crash

unfoldable pub process_probe_result : Probe → (new_id now : ℕ) → Db → Reply (Db × ProbeResult)
process_probe_result p new_id now db = do
  existing ← one_or_none (keep (is_probed p) db.endpoints)
  insertable p existing db
  let (row, eps) = write_probe p new_id now existing db.endpoints
  let active = keep (λ e. e.device_id == p.peer_device_id && e.is_active) eps
  ok (
    with_endpoints eps db,
    record {
      endpoint_id = row.id;
      score = row.score;
      preferred = is_best (select_best_endpoint active) row.id;
      reachable_count = count (λ e. e.reachable) active;
    },
  )
