-- ===== src/Config/Answer.antt =====
-- What a device is told: the schemas of backend/app/schemas/device.py.
use midscale.Prelude.{ℕ, String, Bool, Option, List}
use midscale.Prelude.Int.{ℤ}

pub record EndpointCandidate : Type 0 where
  pub endpoint : String
  pub port : ℤ
  pub source : String
  pub priority : ℤ
  pub last_seen_at : Option ℕ
  pub local_ip : Option String
  pub public_ip : Option String
  pub reachable : Bool
  pub latency_ms : Option ℤ
  pub score : ℤ
  pub preferred : Bool

pub record RelayCandidateInfo : Type 0 where
  pub relay_node : String
  pub relay_region : String
  pub relay_endpoint : String
  pub priority : ℕ
  pub preferred : Bool

pub record PeerInfo : Type 0 where
  pub public_key : String
  pub allowed_ips : List String
  pub endpoint : Option String
  pub endpoint_port : Option ℤ
  pub persistent_keepalive : Option ℕ
  pub endpoint_candidates : List EndpointCandidate
  pub relay_fallback : Bool
  pub relay_candidates : Option (List RelayCandidateInfo)
  pub relay_required : Bool

pub record Interface : Type 0 where
  pub address : String
  pub dns : Option (List String)

-- The fields that are hashed.
pub record ConfigData : Type 0 where
  pub interface : Interface
  pub peers : List PeerInfo
  pub routes : List String
  pub exit_node : Option String

-- `DeviceConfigV2Response`: the version fields, which are constants, are left out.
pub record DeviceConfigV2Response : Type 0 where
  pub config : ConfigData
  pub revision : ℕ
  pub hash : String
