-- ===== src/Acl.antt =====
-- Access between devices: `check_device_access` of backend/app/services/acl.py, with the columns that
-- it reads. Rules of equal priority stay in the order of the table.
pub mod Rules
mod Tests
use midscale.Prelude.{
  ℕ, String, Bool, true, false, not, Option, none, some, List, [], ◌∷◌, ◌&&◌, ◌||◌, keep, find, any,
  str_eq, ◌==◌, if◌then◌else◌,
}
use midscale.Prelude.Int.{ℤ, ltb_ℤ}
use midscale.Prelude.Sort.{sorted}

pub record Device : Type 0 where
  pub id : ℕ
  pub network_id : ℕ
  pub ip_address : Option String
  pub is_active : Bool
  pub tags : Option (List String)

pub record AclRule : Type 0 where
  pub network_id : ℕ
  pub src_tags : List String
  pub dst_tags : List String
  pub action : String
  pub priority : ℤ

-- `set(device.tags or [])`
abbrev pub tags_of : Device → List String
tags_of d = elim d.tags [ none ↦ [] | some ts ↦ ts ]

-- `not rule_tags or device_tags.intersection(rule_tags)`
abbrev pub side_matches : (rule_tags device_tags : List String) → Bool
side_matches [] tags = true
side_matches (t ∷ ts) tags = any (λ x. any (λ y. str_eq x y) tags) (t ∷ ts)

abbrev pub is_match : Device → Device → AclRule → Bool
is_match source dest r =
    side_matches r.src_tags (tags_of source) && side_matches r.dst_tags (tags_of dest)

abbrev pub before : AclRule → AclRule → Bool
before r s = ltb_ℤ r.priority s.priority

-- The first rule that matches decides, without one the access is granted.
abbrev pub decide : Option AclRule → Bool
decide none = true
decide (some r) = str_eq r.action "allow"

unfoldable pub rules_of : ℕ → List AclRule → List AclRule
unfolding sorted
rules_of network rules = sorted before (keep (λ r. r.network_id == network) rules)

abbrev pub same_ip : Option String → String → Bool
same_ip none ip = false
same_ip (some a) ip = str_eq a ip

-- What the method does once both devices are found.
unfoldable pub access_between : Device → Device → List AclRule → Bool
unfolding rules_of
access_between source dest rules =
    if not dest.is_active
    then false
    else if not (source.network_id == dest.network_id)
    then false
    else decide (find (is_match source dest) (rules_of source.network_id rules))

-- By the devices that have the address; several make `scalar_one_or_none` raise.
abbrev pub with_dest : Device → List Device → List AclRule → Option Bool
with_dest source [] rules = some false
with_dest source (dest ∷ []) rules = some (access_between source dest rules)
with_dest source (dest ∷ d ∷ more) rules = none

-- `none` where the method raises. The id is the primary key.
unfoldable pub check_device_access :
    (source_device_id : ℕ) (dest_ip : String) → List Device → List AclRule → Option Bool
unfolding access_between
check_device_access id ip devices rules = elim (find (λ d. d.id == id) devices) [
  | none ↦ some false
  | some source ↦
      if source.is_active
      then with_dest source (keep (λ d. same_ip d.ip_address ip) devices) rules
      else some false
]
