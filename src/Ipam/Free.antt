-- ===== src/Ipam/Free.antt =====
-- What an allocation returns: `allocate_ip` of backend/app/services/ipam.py.
use text.Mathlib.TextPositions.{eq_refl}
use midscale.Prelude.{
  ℕ, String, Bool, true, false, Option, none, some, List, [], ◌∷◌, ◌≡◌, refl, sym, ap, ◌∙◌, arith,
  find, any, all, find-some, str_eq, inl, inr, Option-cases, ◌||◌,
}
use midscale.Scoring.{first}
use midscale.Ipam.{Device, address, no_available, is_used, is_gateway, is_free, answer, allocate_ip}

found-any :
    (p : String → Bool) (hs : List String) (ip : String)
    → find p hs ≡ some ip
    → any (λ h. str_eq h ip) hs ≡ true
found-any p [] ip e = cc
found-any p (h ∷ hs) ip e = ground (arith, found-any p hs ip, eq_refl h)

address_inj : (a b : String) → address a ≡ address b → a ≡ b
address_inj a b h = cc

none-all :
    (p q : String → Bool) (hs : List String)
    → ((h : String) → p h ≡ false → q h ≡ true)
    → find p hs ≡ none
    → all q hs ≡ true
none-all p q [] or e = refl
none-all p q (h ∷ hs) or e = ground (arith, none-all p q hs or, or h)

module _ (hosts : String → Option (List String)) (network : ℕ) (subnet : String)
    (rows : List Device) (available : List String) (valid : hosts subnet ≡ some available) where
  allocate-answer :
      allocate_ip hosts network subnet rows
      ≡ answer (find (is_free network rows available) available)
  unfolding allocate_ip
  allocate-answer = rw valid refl

  -- In a valid subnet, an address that is handed out is one of the subnet's hosts, not the first,
  -- which is the gateway's, and no device of the network has it.
  pub allocate_ip-address :
      (ip : String)
      → allocate_ip hosts network subnet rows ≡ address ip
      → (any (λ h. str_eq h ip) available ≡ true)
        × (is_gateway (first available) ip ≡ false)
        × (is_used network rows ip ≡ false)
  allocate_ip-address ip h = elim (Option-cases (find (is_free network rows available) available)) [
    | inl e ↦ cc (sym (allocate-answer ∙ ap answer e) ∙ h)
    | inr (a, e) ↦
        let same : address a ≡ address ip = sym (allocate-answer ∙ ap answer e) ∙ h in
        let found : find (is_free network rows available) available ≡ some ip =
          e ∙ ap some (address_inj a ip same) in
        let free = find-some (is_free network rows available) available ip found in
        (
          found-any (is_free network rows available) available ip found,
          ground (arith, free),
          ground (arith, free),
        )
  ]

  -- In a valid subnet, an allocation fails only where each host but the gateway's is the address of a
  -- device of the network.
  allocate_ip-no_available :
      allocate_ip hosts network subnet rows ≡ no_available
      → all (λ h. is_gateway (first available) h || is_used network rows h) available ≡ true
  allocate_ip-no_available h =
      elim (Option-cases (find (is_free network rows available) available)) [
        | inl e ↦ none-all (is_free network rows available) _ available (λ a f. ground (arith, f)) e
        | inr (a, e) ↦ cc (sym (allocate-answer ∙ ap answer e) ∙ h)
      ]
