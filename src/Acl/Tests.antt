-- ===== src/Acl/Tests.antt =====
-- A laptop that may reach a server but not a printer, and the theorem about it:
-- backend/app/services/acl.py.
use mathlib.Core.List.{Mem}
use midscale.Prelude.{
  ℕ, String, true, false, not, some, List, [], ◌∷◌, ◌≡◌, refl, ◌⊎◌, all, str_eq, ◌&&◌,
}
use midscale.Prelude.Int.{pos}
use midscale.Prelude.Sort.{sorted, insert}
use midscale.Acl.{Device, AclRule, is_match, before, check_device_access, access_between, rules_of}
use midscale.Acl.Rules.{applicable, access_between_lem}

abbrev device : ℕ → String → String → Device
device k ip tag = record {
  id = k;
  network_id = 1;
  ip_address = some ip;
  is_active = true;
  tags = some (tag ∷ []);
}

abbrev rules : List AclRule
rules =
    record { network_id = 1; src_tags = []; dst_tags = []; action = "deny"; priority = pos 200 }
    ∷ record {
      network_id = 1;
      src_tags = "laptop" ∷ [];
      dst_tags = "server" ∷ [];
      action = "allow";
      priority = pos 100;
    }
    ∷ []

abbrev laptop : Device
laptop = device 1 "10.0.0.2" "laptop"

abbrev server : Device
server = device 2 "10.0.0.3" "server"

abbrev printer : Device
printer = device 3 "10.0.0.4" "printer"

to_server : check_device_access 1 "10.0.0.3" (laptop ∷ server ∷ printer ∷ []) rules ≡ some true
unfolding check_device_access access_between rules_of sorted insert
to_server = refl

to_printer : check_device_access 1 "10.0.0.4" (laptop ∷ server ∷ printer ∷ []) rules ≡ some false
unfolding check_device_access access_between rules_of sorted insert
to_printer = refl

access_between_lem_example :
    ((all (λ r. not (is_match laptop server r)) (applicable 1 rules) ≡ true)
      × (access_between laptop server rules ≡ true))
    ⊎ ((b : AclRule) × Mem b (applicable 1 rules)
        × (is_match laptop server b ≡ true)
        × (all (λ r. not (is_match laptop server r && before r b)) (applicable 1 rules) ≡ true)
        × (access_between laptop server rules ≡ str_eq b.action "allow"))
access_between_lem_example = access_between_lem laptop server rules refl refl
