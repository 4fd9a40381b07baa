-- ===== src/Api/Admission.antt =====
-- The handlers `enroll_by_key` and `register_device` of backend/app/api/v1/devices.py, which admit a
-- device by a pre-auth key.
use midscale.Prelude.{
  ℕ, String, Bool, true, false, not, Option, none, some, List, [], ◌∷◌, ◌++◌, map, keep, find,
  update_first, str_eq, ltb, ◌==◌, if◌then◌else◌,
}
use midscale.Ipam as Addresses
use midscale.Ipam.{Allocation, address, invalid_subnet, no_available, allocate_ip}
use midscale.Api.{
  Network, Device, PreAuthKey, Db, Reply, ok, error, crash, ◌>>=◌, ◌>>◌, require, network_of,
}
use midscale.Api.Auth.{Passwords, generate_device_token}
use midscale.Config.Build.{Environment, build_config_v2}
use midscale.Config.Answer.{DeviceConfigV2Response}
use midscale.Api.Devices.{World, with_db, log}

-- The rows as `allocate_ip` reads them.
abbrev pub address_rows : List Device → List Addresses.Device
address_rows devices =
    map (λ d. record { id = d.id; network_id = d.network_id; ip_address = d.ip_address }) devices

-- The HTTP errors of `allocate_ip`.
abbrev pub allocated : Allocation → Reply String
allocated (address ip) = ok ip
allocated invalid_subnet = error 400
allocated no_available = error 409

abbrev pub allocate : (hosts : String → Option (List String)) → Network → Db → Reply String
allocate hosts n db = allocated (allocate_ip hosts n.id n.subnet (address_rows db.devices))

-- `scalar_one()`
abbrev pub must {ℓ} : {A : Type ℓ} → Option A → Reply A
must none = crash
must (some a) = ok a

abbrev pub has_key : String → PreAuthKey → Bool
has_key key p = str_eq p.key key

abbrev pub used_list : Option (List ℕ) → List ℕ
used_list none = []
used_list (some ids) = ids

abbrev pub is_unused : PreAuthKey → Bool
is_unused p = elim (used_list p.used_by) [ [] ↦ true | _ ∷ _ ↦ p.reusable ]

-- A key that is not reusable is deleted, one that is notes the device.
abbrev pub spend : PreAuthKey → (device_id : ℕ) → List PreAuthKey → List PreAuthKey
spend p device_id keys =
    if p.reusable
    then update_first (λ q. q.id == p.id)
        (λ q. record q { used_by = some (used_list q.used_by ++ device_id ∷ []) }) keys
    else keep (λ q. not (q.id == p.id)) keys

abbrev pub new_device : (new_id : ℕ) (name : String) (ip : String) → PreAuthKey → Device
new_device new_id name ip p = record {
  id = new_id;
  name = name;
  user_id = none;
  network_id = p.network_id;
  public_key = none;
  private_key_enc = none;
  ip_address = some ip;
  dns_enabled = true;
  is_active = true;
  is_node_owned = false;
  device_token_hash = none;
  device_token_prefix = none;
  enrollment_status = "active";
  enrolled_at = none;
  last_seen_at = none;
  revoked_at = none;
  tags = some [];
  exit_node_id = none;
}

abbrev pub admitted : Device → PreAuthKey → Db → Db
admitted d p db = record db {
  devices = db.devices ++ d ∷ [];
  preauth_keys = spend p d.id db.preauth_keys;
}

-- The checks of the key.
abbrev pub usable : (now : ℕ) → Option PreAuthKey → Reply PreAuthKey
usable now none = error 401
usable now (some p) = if ltb p.expires_at now then error 401 else ok p

module _ (lib : Passwords) (env : Environment) (hosts : String → Option (List String)) where
  unfoldable pub enroll_by_key :
      (key name public_key : String) (new_id : ℕ) (prefix secret : String) (now : ℕ)
      → World
      → Reply (World × DeviceConfigV2Response)
  unfolding generate_device_token allocate_ip
  enroll_by_key key name public_key new_id prefix secret now w = do
    p ← usable now (find (has_key key) w.db.preauth_keys)
    require (is_unused p) 401
    n ← must (network_of p.network_id w.db)
    ip ← allocate hosts n w.db
    let d = record (new_device new_id name ip p) {
      public_key = some public_key;
      is_node_owned = true;
      device_token_hash = some (generate_device_token lib prefix secret).2;
      device_token_prefix = some prefix;
      enrolled_at = some now;
      last_seen_at = some now;
    }
    let w' = with_db (admitted d p w.db) w
    config ← build_config_v2 env now d w'.db
    ok (log "device.enroll_by_key" new_id w', config)

  -- `save_device_keys` draws the pair of keys and encrypts the private one: both texts are arguments.
  unfoldable pub register_device :
      (key name : String) (new_id : ℕ) (public_key private_key_enc : String) (now : ℕ)
      → World
      → Reply World
  unfolding allocate_ip
  register_device key name new_id public_key private_key_enc now w = do
    p ← usable now (find (has_key key) w.db.preauth_keys)
    n ← must (network_of p.network_id w.db)
    ip ← allocate hosts n w.db
    let d = record (new_device new_id name ip p) {
      public_key = some public_key;
      private_key_enc = some private_key_enc;
    }
    ok (log "device.register" new_id (with_db (admitted d p w.db) w))
