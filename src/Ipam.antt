-- ===== src/Ipam.antt =====
-- Addresses of devices: `allocate_ip` and `release_ip` of backend/app/services/ipam.py, on the columns
-- that they read. The hosts of a subnet, as texts, are what the library `ipaddress` says; they are an
-- argument, `none` where the text is no subnet.
pub mod Free
mod Tests
use midscale.Prelude.{
  ℕ, String, Bool, true, false, not, Option, none, some, List, [], ◌∷◌, ◌&&◌, keep, find, any,
  update_first, str_eq, ◌==◌, if◌then◌else◌,
}
use midscale.Scoring.{first}

pub record Device : Type 0 where
  pub id : ℕ
  pub network_id : ℕ
  pub ip_address : Option String

-- An address, or the two HTTP errors.
pub data Allocation : Type 0 where
  address : String → Allocation
  invalid_subnet no_available : Allocation

abbrev pub same_ip : Option String → String → Bool
same_ip none ip = false
same_ip (some a) ip = str_eq a ip

-- `ip_str in used_ips`
abbrev pub is_used : ℕ → List Device → String → Bool
is_used network rows ip = any (λ d. d.network_id == network && same_ip d.ip_address ip) rows

-- `ip_str == gateway`
abbrev pub is_gateway : Option String → String → Bool
is_gateway gateway ip = same_ip gateway ip

-- A host that the loop returns.
abbrev pub is_free : ℕ → List Device → List String → String → Bool
is_free network rows available ip =
    not (is_gateway (first available) ip) && not (is_used network rows ip)

abbrev pub answer : Option String → Allocation
answer none = no_available
answer (some ip) = address ip

abbrev pub allocate_from : Option (List String) → ℕ → List Device → Allocation
allocate_from none network rows = invalid_subnet
allocate_from (some available) network rows =
    answer (find (is_free network rows available) available)

unfoldable pub allocate_ip :
    (hosts : String → Option (List String)) (network_id : ℕ) (subnet : String)
    → List Device
    → Allocation
allocate_ip hosts network subnet rows = allocate_from (hosts subnet) network rows

unfoldable pub release_ip : (device_id : ℕ) → List Device → List Device
release_ip k rows = update_first (λ d. d.id == k) (λ d. record d { ip_address = none }) rows
