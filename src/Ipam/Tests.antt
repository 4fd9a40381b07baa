-- ===== src/Ipam/Tests.antt =====
-- A subnet of three hosts: backend/app/services/ipam.py.
use midscale.Prelude.{
  String, true, false, Option, none, some, List, [], ◌∷◌, ◌≡◌, refl, any, str_eq, if◌then◌else◌,
}
use midscale.Scoring.{first}
use midscale.Ipam.{Device, address, no_available, is_gateway, is_used, allocate_ip, release_ip}
use midscale.Ipam.Free.{allocate_ip-address}

abbrev three : List String
three = "10.0.0.1" ∷ "10.0.0.2" ∷ "10.0.0.3" ∷ []

abbrev hosts : String → Option (List String)
hosts s = if str_eq s "10.0.0.0/29" then some three else none

abbrev one : List Device
one = record { id = 1; network_id = 7; ip_address = some "10.0.0.2" } ∷ []

abbrev two : List Device
two = record { id = 2; network_id = 7; ip_address = some "10.0.0.3" } ∷ one

gets_third : allocate_ip hosts 7 "10.0.0.0/29" one ≡ address "10.0.0.3"
unfolding allocate_ip
gets_third = refl

gets_none : allocate_ip hosts 7 "10.0.0.0/29" two ≡ no_available
unfolding allocate_ip
gets_none = refl

after_release : allocate_ip hosts 7 "10.0.0.0/29" (release_ip 1 two) ≡ address "10.0.0.2"
unfolding allocate_ip release_ip
after_release = refl

allocate_ip-address_example :
    (any (λ h. str_eq h "10.0.0.3") three ≡ true)
    × (is_gateway (first three) "10.0.0.3" ≡ false)
    × (is_used 7 one "10.0.0.3" ≡ false)
allocate_ip-address_example =
    allocate_ip-address hosts 7 "10.0.0.0/29" one three refl "10.0.0.3" gets_third
