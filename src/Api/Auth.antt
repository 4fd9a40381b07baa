-- ===== src/Api/Auth.antt =====
-- How a device's token is looked up: backend/app/api/deps.py, with the tokens of
-- backend/app/core/security.py. The password hash (passlib) is an interface; random texts are arguments.
use Prim.Native.String.{◌++◌ as append}
use text.Mathlib.Text.{starts_with}
use midscale.Prelude.{
  ℕ, String, Bool, true, false, Option, none, some, ◌&&◌, ◌≡◌, keep, find, str_eq, ltb, ◌==◌,
  if◌then◌else◌,
}
use midscale.Prelude.Texts.{count_chars, take_chars, drop_chars}
use midscale.Api.{Device, Db, Reply, ok, error, ◌>>=◌, found, one_or_none}

-- `verify_password` and `hash_password`: a hash is no empty text, and verifies its own
-- password.
pub record Passwords : Type 0 where
  pub verify_password : (plain hashed : String) → Bool
  pub hash_password : String → String
  pub hash-nonempty : (plain : String) → str_eq (hash_password plain) "" ≡ false
  pub verify-hash : (plain : String) → verify_password plain (hash_password plain) ≡ true

abbrev pub token_prefix : String
token_prefix = "midscale_device_"

-- f"midscale_device_{prefix}_{secret}"
abbrev pub token_of : (prefix secret : String) → String
token_of prefix secret = append token_prefix (append prefix (append "_" secret))

-- What is behind `midscale_device_`, cut by position.
abbrev pub cut : (rest : String) → Option (String × String)
cut rest =
    if ltb 9 (count_chars rest) && str_eq (take_chars 1 (drop_chars 8 rest)) "_"
    then some (take_chars 8 rest, drop_chars 9 rest)
    else none

unfoldable pub split_token : (token : String) → Option (String × String)
unfolding count_chars take_chars drop_chars
split_token token =
    if starts_with token token_prefix
    then cut (drop_chars (count_chars token_prefix) token)
    else none

unfoldable pub check_device_status : Device → Reply Device
check_device_status d =
    if str_eq d.enrollment_status "revoked"
    then error 401
    else if str_eq d.enrollment_status "expired"
    then error 401
    else if str_eq d.enrollment_status "pending"
    then error 401
    else ok d

abbrev pub same_text : Option String → String → Bool
same_text none t = false
same_text (some s) t = str_eq s t

abbrev pub has_prefix : String → Device → Bool
has_prefix prefix d = same_text d.device_token_prefix prefix && d.is_active

module _ (lib : Passwords) where
  -- `device.device_token_hash and verify_password(...)`
  abbrev pub verifies_hash : (plain : String) → Option String → Bool
  verifies_hash plain none = false
  verifies_hash plain (some h) = if str_eq h "" then false else lib.verify_password plain h

  abbrev pub verifies : (plain : String) → Device → Bool
  verifies plain d = verifies_hash plain d.device_token_hash

  -- `return _check_device_status(device)`
  abbrev pub checked : Option Device → Reply (Option Device)
  checked none = ok none
  checked (some d) = check_device_status d >>= λ e. ok (some e)

  -- The scan of all active devices, for tokens of the old form.
  unfoldable pub scan_devices : (token : String) → Db → Reply (Option Device)
  unfolding check_device_status
  scan_devices token db = checked (find (λ d. d.is_active && verifies token d) db.devices)

  abbrev pub by_prefix : (token secret : String) → Option Device → Db → Reply (Option Device)
  by_prefix token secret none db = scan_devices token db
  by_prefix token secret (some d) db =
      if verifies secret d then checked (some d) else scan_devices token db

  abbrev pub by_parts : (token : String) → Option (String × String) → Db → Reply (Option Device)
  by_parts token none db = scan_devices token db
  by_parts token (some (prefix, secret)) db =
      one_or_none (keep (has_prefix prefix) db.devices) >>= λ o. by_prefix token secret o db

  unfoldable pub lookup_device_by_token : (token : String) → Db → Reply (Option Device)
  unfolding scan_devices split_token
  lookup_device_by_token token db = by_parts token (split_token token) db

  unfoldable pub get_current_device : (token : String) → Db → Reply Device
  unfolding lookup_device_by_token
  get_current_device token db = do o ← lookup_device_by_token token db; found o 401

  unfoldable pub get_current_device_by_id : (device_id : ℕ) (token : String) → Db → Reply Device
  unfolding lookup_device_by_token
  get_current_device_by_id k token db = do
    o ← lookup_device_by_token token db
    d ← found o 401
    if d.id == k then ok d else error 403

  -- `generate_device_token` for the texts that it draws.
  unfoldable pub generate_device_token : (prefix secret : String) → String × String × String
  generate_device_token prefix secret = (token_of prefix secret, prefix, lib.hash_password secret)
