-- ===== src/Api/DeviceRequests.antt =====
-- Requests to backend/app/api/v1/devices.py in sequence, each a transaction, and how many of them a
-- pre-auth key admits.
use midscale.Prelude.{
  ℕ, String, Bool, false, not, Option, List, [], ◌∷◌, ◌&&◌, ◌+◌, str_eq, if◌then◌else◌,
}
use midscale.Api.{settle, User, PreAuthKey, Reply, ok, ◌>>=◌}
use midscale.Api.Auth.{Passwords}
use midscale.Config.Build.{Environment}
use midscale.Api.Devices.{
  World, DeviceUpdate, update_device, enroll_device, rotate_device_token, revoke_device,
}
use midscale.Api.Admission.{has_key, enroll_by_key, register_device}

pub data Request : Type 0 where
  update : (device_id : ℕ) → DeviceUpdate → User → Request
  enroll :
      (device_id : ℕ) (public_key : String) (ip_address : Option String) (prefix secret : String)
      (now : ℕ)
      → User
      → Request
  rotate : (device_id : ℕ) (token prefix secret : String) → Request
  revoke : (device_id now : ℕ) → User → Request
  enroll_key :
      (key name public_key : String) (new_id : ℕ) (prefix secret : String) (now : ℕ) → Request
  register :
      (key name : String) (new_id : ℕ) (public_key private_key_enc : String) (now : ℕ) → Request

-- The world that a handler leaves, if it answers.
abbrev pub world_of {ℓ} : {A : Type ℓ} → Reply (World × A) → Reply World
world_of m = m >>= λ r. ok r.0

-- No key with this text is reusable.
abbrev pub is_single : (key : String) → PreAuthKey → Bool
is_single key p = not (has_key key p && p.reusable)

-- Whether a request has been granted.
abbrev pub granted : Reply World → ℕ
granted (ok w) = 1
granted _ = 0

-- A request that admits a device by the key.
abbrev pub uses : (key : String) → Request → Bool
uses k (enroll_key key _ _ _ _ _ _) = str_eq key k
uses k (register key _ _ _ _ _) = str_eq key k
uses k _ = false

module _ (lib : Passwords) (env : Environment) (hosts : String → Option (List String))
    (bus ws : Bool) where
  unfoldable pub handle : Request → World → Reply World
  unfolding update_device enroll_device rotate_device_token revoke_device enroll_by_key
      register_device
  handle (update k req u) w = update_device k req u w
  handle (enroll k pk ip p s now u) w = world_of (enroll_device lib k pk ip p s now u w)
  handle (rotate k t p s) w = world_of (rotate_device_token lib k t p s w)
  handle (revoke k now u) w = revoke_device env bus ws k now u w
  handle (enroll_key key name pk i p s now) w =
      world_of (enroll_by_key lib env hosts key name pk i p s now w)
  handle (register key name i pk sk now) w = register_device lib env hosts key name i pk sk now w

  unfoldable pub run : List Request → World → World
  unfolding handle
  run [] w = w
  run (r ∷ rs) w = run rs (settle w (handle r w))

  -- How many devices the key admits.
  unfoldable pub admissions : (key : String) → List Request → World → ℕ
  unfolding handle
  admissions key [] w = 0
  admissions key (r ∷ rs) w =
      (if uses key r then granted (handle r w) else 0) + admissions key rs (settle w (handle r w))
