-- ===== src/Api/DeviceTests.antt =====
-- Tokens, keys and revocations of devices, and the theorems about them at a concrete network.
use text.Mathlib.TextPositions.{eq_refl}
use midscale.Prelude.{
  String, true, false, Option, some, List, [], ◌∷◌, ◌≡◌, ◌≢◌, ◌≤◌, suc, ap, eq_iff, inl, inr,
  Bool-cases, ◌+◌, refl, arith, count, str_eq,
}
use midscale.Api.{settle, Device, Db, ok}
use midscale.Prelude.Texts.{count_chars}
use midscale.Config.Sample.{environment}
use midscale.Config.Grouping.{is_active_row}
use midscale.Api.Auth.{Passwords, generate_device_token, get_current_device_by_id, split_token}
use midscale.Api.Tokens.{Stands, get_current_device_by_id-ok, get_current_device_by_id-token_of}
use midscale.Api.Devices as Devices
use midscale.Api.Devices.{has_id, revoke_device}
use midscale.Api.Admission.{has_key}
use midscale.Api.Revocation.{revoke_device_lem}
use midscale.Api.DeviceRequests as DeviceRequests
use midscale.Api.DeviceRequests.{admissions, is_single}
use midscale.Api.Enrollment.{admissions-le}
use midscale.Api.Sample.{admin, device, start}

-- A hash that writes one letter in front.
abbrev hash_of : String → String
hash_of plain = String.◌∷◌ "h" plain

hash_verifies : (plain : String) → str_eq (hash_of plain) (hash_of plain) ≡ true
hash_verifies plain = eq_refl (hash_of plain)

hash_filled : (plain : String) → str_eq (hash_of plain) "" ≡ false
unfolding count_chars
hash_filled plain = elim (Bool-cases (str_eq (hash_of plain) "")) [
  | inr e ↦ e
  | inl e ↦
      let longer : suc (count_chars plain) ≡ 0 = ap count_chars ((eq_iff (hash_of plain) "").0 e) in
      absurd (omega (arith, longer))
]

abbrev passwords : Passwords
passwords = record {
  verify_password = λ plain hashed. str_eq (hash_of plain) hashed;
  hash_password = hash_of;
  hash-nonempty = hash_filled;
  verify-hash = hash_verifies;
}

abbrev with_token : Device
with_token = record (device 13) {
  device_token_prefix = some "abcd_fgh";
  device_token_hash = some "hs3cret";
}

abbrev token_db : Db
token_db = record start.db { devices = device 11 ∷ with_token ∷ [] }

eight : count_chars "abcd_fgh" ≡ 8
unfolding count_chars
eight = refl

some_secret : count_chars "s3cret" ≡ 6
unfolding count_chars
some_secret = refl

let_in :
    get_current_device_by_id passwords 13
      (generate_device_token passwords "abcd_fgh" "s3cret").0
      token_db
    ≡ ok with_token
let_in =
    get_current_device_by_id-token_of passwords "abcd_fgh" "s3cret" token_db with_token eight
      (omega (arith, some_secret)) refl refl refl

get_current_device_by_id-token_of_example :
    get_current_device_by_id passwords 13
      (generate_device_token passwords "abcd_fgh" "s3cret").0
      token_db
    ≡ ok with_token
get_current_device_by_id-token_of_example =
    get_current_device_by_id-token_of passwords "abcd_fgh" "s3cret" token_db with_token eight
      (omega (arith, some_secret)) refl refl refl

get_current_device_by_id-ok_example :
    (with_token.id ≡ 13)
    × Stands passwords
        (generate_device_token passwords "abcd_fgh" "s3cret").0
        (split_token (generate_device_token passwords "abcd_fgh" "s3cret").0)
        with_token
        token_db
get_current_device_by_id-ok_example =
    get_current_device_by_id-ok passwords 13 (generate_device_token passwords "abcd_fgh" "s3cret").0
      token_db with_token let_in

-- A key for one device.
abbrev fleet : Devices.World
fleet = record {
  db = record token_db {
    preauth_keys =
        record {
          id = 40;
          key = "k1";
          network_id = 5;
          reusable = false;
          expires_at = 100;
          used_by = some [];
        }
        ∷ [];
  };
  events = [];
  messages = [];
}

abbrev hosts : String → Option (List String)
hosts subnet = some ("10.0.0.1" ∷ "10.0.0.2" ∷ "10.0.0.3" ∷ "10.0.0.4" ∷ [])

abbrev joining : List DeviceRequests.Request
joining =
    DeviceRequests.register "k1" "first" 50 "pk" "enc" 7
    ∷ DeviceRequests.register "k1" "second" 51 "pk" "enc" 8
    ∷ []

joined : admissions passwords environment hosts true true "k1" joining fleet ≡ 1
unfolding admissions
joined = refl

revoked : Devices.World
unfolding revoke_device
revoked = settle fleet (revoke_device environment true true 13 9 admin fleet)

revoked_ok : revoke_device environment true true 13 9 admin fleet ≡ ok revoked
unfolding revoked
revoked_ok = refl

revoke_device_lem_example :
    (count (is_active_row 13) revoked.db.devices ≡ 0)
    × ((lib : Passwords) (token : String) (d : Device)
        → get_current_device_by_id lib 13 token revoked.db ≢ ok d)
    × (revoked.events ≡ [])
    × (revoked.messages ≡ [])
revoke_device_lem_example =
    revoke_device_lem environment true true 13 9 admin fleet revoked (omega arith) revoked_ok

admissions-le_example :
    admissions passwords environment hosts true true "k1" joining fleet
      + count
          (has_key "k1")
          (DeviceRequests.run passwords environment hosts true true joining fleet).db.preauth_keys
    ≤ count (has_key "k1") fleet.db.preauth_keys
admissions-le_example = admissions-le passwords environment hosts true true "k1" joining fleet refl
