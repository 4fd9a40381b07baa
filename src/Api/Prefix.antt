-- ===== src/Api/Prefix.antt =====
-- The checks of an advertised prefix: backend/app/services/route_validation.py. The networks of
-- Python's `ipaddress` are an interface, `settings.debug` is an argument.
use midscale.Prelude.{
  String, Bool, true, false, not, Option, none, some, List, [], ◌∷◌, ◌&&◌, ℕ, any, str_eq, ltb,
  if◌then◌else◌,
}
use midscale.Api.{Reply, ok, error}

-- `IPv4Network(prefix, strict=False)`, `none` where it raises ValueError, and what is read of it.
pub record IpNetworks : Type 1 where
  pub Net : Type 0
  pub ipv4_network : String → Option Net
  pub prefixlen : Net → ℕ
  pub is_private : Net → Bool
  pub is_loopback : Net → Bool
  pub overlaps : Net → Net → Bool

abbrev pub forbidden_prefixes : List String
forbidden_prefixes =
    "127.0.0.0/8" ∷ "169.254.0.0/16" ∷ "224.0.0.0/4" ∷ "240.0.0.0/4" ∷ "0.0.0.0/8" ∷ []

abbrev pub is_default : String → Bool
is_default prefix = if str_eq prefix "0.0.0.0/0" then true else str_eq prefix "::/0"

module _ (lib : IpNetworks) where
  open lib use {Net, ipv4_network, prefixlen, is_private, is_loopback, overlaps}

  abbrev pub check_net : (debug : Bool) → Option Net → Reply (Unit {0})
  check_net debug none = error 400
  check_net debug (some net) =
      if ltb (prefixlen net) 8
      then error 400
      else if not (is_private net) && not (is_loopback net)
      then (if debug then ok tt else error 400)
      else ok tt

  unfoldable pub check_safe_prefix :
      (debug : Bool) (prefix : String) (is_exit_node : Bool) → Reply (Unit {0})
  check_safe_prefix debug prefix is_exit_node =
      if any (λ p. str_eq prefix p) forbidden_prefixes
      then error 400
      else if str_eq prefix "0.0.0.0/0"
      then (if not is_exit_node then error 400 else ok tt)
      else if str_eq prefix "::/0"
      then (if not is_exit_node then error 400 else ok tt)
      else check_net debug (ipv4_network prefix)

  abbrev pub overlaps_text : Net → Option Net → Bool
  overlaps_text new none = false
  overlaps_text new (some net) = overlaps new net

  abbrev pub first_overlap : Net → List String → Option String
  first_overlap new [] = none
  first_overlap new (existing ∷ rest) =
      if overlaps_text new (ipv4_network existing) then some existing else first_overlap new rest

  abbrev pub overlap_of : List String → Option Net → Option String
  overlap_of existing none = none
  overlap_of existing (some new) = first_overlap new existing

  unfoldable pub check_overlap :
      (existing_prefixes : List String) (new_prefix : String) → Option String
  check_overlap existing_prefixes new_prefix =
      overlap_of existing_prefixes (ipv4_network new_prefix)
