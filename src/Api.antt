-- ===== src/Api.antt =====
-- The rows and replies that the HTTP handlers of backend/app/api/v1 share, and the access checks of
-- backend/app/api/deps.py. A request is one transaction: a handler that raises leaves the tables as
-- they were, since `get_session` of backend/app/database.py rolls back.
pub mod Replies
pub mod Sample
pub mod Prefix
pub mod Auth
pub mod Tokens
pub mod Devices
pub mod Admission
pub mod Revocation
pub mod DeviceRequests
pub mod Enrollment
pub mod Routes
pub mod RouteRequests
pub mod RouteTable
pub mod ExitNode
pub mod Approval
pub mod Deletion
mod Tests
mod DeviceTests
use midscale.Prelude.{
  ℕ, String, Bool, true, false, not, Option, none, some, List, [], ◌∷◌, ◌&&◌, find, str_eq, ◌==◌,
  if◌then◌else◌,
}
use midscale.Endpoints.{DeviceEndpoint}

pub record User : Type 0 where
  pub id : ℕ
  pub is_superuser : Bool

pub record Network : Type 0 where
  pub id : ℕ
  pub subnet : String
  pub topology : Option String
  pub owner_id : Option ℕ

pub record Device : Type 0 where
  pub id : ℕ
  pub name : String
  pub user_id : Option ℕ
  pub network_id : ℕ
  pub public_key : Option String
  pub private_key_enc : Option String
  pub ip_address : Option String
  pub dns_enabled : Bool
  pub is_active : Bool
  pub is_node_owned : Bool
  pub device_token_hash : Option String
  pub device_token_prefix : Option String
  pub enrollment_status : String
  pub enrolled_at : Option ℕ
  pub last_seen_at : Option ℕ
  pub revoked_at : Option ℕ
  pub tags : Option (List String)
  pub exit_node_id : Option ℕ

pub record AdvertisedRoute : Type 0 where
  pub id : ℕ
  pub device_id : ℕ
  pub network_id : ℕ
  pub prefix : String
  pub enabled : Bool
  pub approved : Bool
  pub is_exit_node : Bool

-- `used_by` has the devices' ids.
pub record PreAuthKey : Type 0 where
  pub id : ℕ
  pub key : String
  pub network_id : ℕ
  pub reusable : Bool
  pub expires_at : ℕ
  pub used_by : Option (List ℕ)

pub record DnsEntry : Type 0 where
  pub network_id : ℕ
  pub address : String

-- An entry of the audit log: the action and the row that it was done to.
pub record AuditLog : Type 0 where
  pub action : String
  pub target_id : ℕ

pub record Db : Type 0 where
  pub networks : List Network
  pub devices : List Device
  pub routes : List AdvertisedRoute
  pub preauth_keys : List PreAuthKey
  pub dns_entries : List DnsEntry
  pub endpoints : List DeviceEndpoint
  pub audit : List AuditLog

-- What a handler answers: a value, an HTTP error with its status, or any other exception.
pub data Reply {ℓ} (A : Type ℓ) : Type ℓ where
  ok : A → Reply A
  error : (status_code : ℕ) → Reply A
  crash : Reply A

-- A refusal or an exception ends the chain.
infixl 5 ◌>>◌ ◌>>=◌
abbrev pub ◌>>=◌ {ℓ κ} : {A : Type ℓ} {B : Type κ} → Reply A → (A → Reply B) → Reply B
crash >>= next = crash
error status_code >>= next = error status_code
ok a >>= next = next a

abbrev pub ◌>>◌ {ℓ} : {B : Type ℓ} → (check : Reply (Unit {0})) (next : Reply B) → Reply B
check >> next = check >>= λ _. next

-- A handler that raises leaves the tables as they were.
abbrev pub settle {ℓ} : {A : Type ℓ} → A → Reply A → A
settle w (ok w') = w'
settle w _ = w

-- `if not b: raise HTTPException(status_code)`
abbrev pub require : Bool → (status_code : ℕ) → Reply (Unit {0})
require true n = ok tt
require false n = error n

-- `scalar_one_or_none()` on a query by primary key, then `if not row: raise HTTPException(404)`
abbrev pub found {ℓ} : {A : Type ℓ} → Option A → (status_code : ℕ) → Reply A
found none n = error n
found (some a) n = ok a

-- `scalar_one_or_none()` where several rows may match
abbrev pub one_or_none {ℓ} : {A : Type ℓ} → List A → Reply (Option A)
one_or_none [] = ok none
one_or_none (a ∷ []) = ok (some a)
one_or_none (a ∷ b ∷ more) = crash

abbrev pub same_id : Option ℕ → ℕ → Bool
same_id none k = false
same_id (some a) k = a == k

abbrev pub network_of : ℕ → Db → Option Network
network_of k db = find (λ n. n.id == k) db.networks

abbrev pub device_of : ℕ → Db → Option Device
device_of k db = find (λ d. d.id == k) db.devices

abbrev pub owns : User → Network → Bool
owns user n = if user.is_superuser then true else same_id n.owner_id user.id

-- Answers the network, 404 without one and 403 to a user who does not own it.
unfoldable pub require_network_owner : (network_id : ℕ) → User → Db → Reply Network
require_network_owner k user db = do
  n ← found (network_of k db) 404
  require (owns user n) 403
  ok n
