-- ===== src/Endpoints.antt =====
-- The rows of `device_endpoints`: backend/app/models/endpoint.py. Times are whole seconds, identifiers
-- are numbers, and the columns that a report may set to any integer are integers.
use midscale.Prelude.{ℕ, String, Bool, Option}
use midscale.Prelude.Int.{ℤ}

pub record DeviceEndpoint : Type 0 where
  pub id : ℕ
  pub device_id : ℕ
  pub endpoint : String
  pub source : String
  pub port : ℤ
  pub local_ip : Option String
  pub public_ip : Option String
  pub priority : ℤ
  pub is_active : Bool
  pub last_seen : Option ℕ
  pub latency_ms : Option ℤ
  pub reachable : Bool
  pub last_probe_at : Option ℕ
  pub failure_count : ℕ
  pub success_count : ℕ
  pub score : ℤ
