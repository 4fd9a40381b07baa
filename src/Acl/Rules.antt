-- ===== src/Acl/Rules.antt =====
-- Which rule decides: `check_device_access` of backend/app/services/acl.py.
use mathlib.Core.List.{Mem, mem-cons}
use mathlib.Core.List.Perm
use mathlib.Core.Path.{subst}
use mathlib.Core.Logic.Or
use midscale.Prelude.{
  ℕ, Bool, true, false, not, none, some, List, [], ◌∷◌, ◌≡◌, refl, sym, ap, ◌∙◌, ◌⊎◌, inl, inr,
  arith, keep, find, all, str_eq, ◌==◌, ==_iff, ◌&&◌, Option-cases, Bool-cases, find-some,
}
use midscale.Prelude.Sort.{sorted, Leads, IsSorted, sorted-perm, sorted-IsSorted, all-sorted}
use midscale.Acl.{Device, AclRule, before, decide, is_match, rules_of, access_between}

before_asym : (a b : AclRule) → before a b ≡ true → before b a ≡ false
before_asym a b h = ground arith

before_trans : (a b c : AclRule) → before c b ≡ false → before b a ≡ false → before c a ≡ false
before_trans a b c h k = ground arith

before_irrefl : (a : AclRule) → before a a ≡ false
before_irrefl a = ground arith

module _ (p : AclRule → Bool) (b : AclRule) where
  all-of-Leads :
      (rest : List AclRule) → Leads before b rest → all (λ r. not (p r && before r b)) rest ≡ true
  all-of-Leads [] h = refl
  all-of-Leads (r ∷ rest) h = ground (arith, all-of-Leads rest h.1)

  head : (r : AclRule) (rules : List AclRule) → p r ≡ true → find p (r ∷ rules) ≡ some b → r ≡ b
  head r rules e h = ground arith

  -- In a sorted list no rule that passes stands before the first that passes.
  found-first :
      (rules : List AclRule)
      → IsSorted before rules
      → find p rules ≡ some b
      → all (λ r. not (p r && before r b)) rules ≡ true
  found-first [] s h = refl
  found-first (r ∷ rules) s h = elim (Bool-cases (p r)) [
    | inl e ↦
        let same : r ≡ b = head r rules e h in
        ground (
          arith,
          before_irrefl b,
          same,
          all-of-Leads rules (subst (λ c. Leads before c rules) same s.0),
        )
    | inr e ↦ ground (arith, e, found-first rules s.1)
  ]

  find-Mem : (rules : List AclRule) → find p rules ≡ some b → Mem b rules
  find-Mem [] h = cc
  find-Mem (r ∷ rules) h = elim (Bool-cases (p r)) [
    | inl e ↦ mem-cons.1 (Or.inl (sym (head r rules e h)))
    | inr e ↦ mem-cons.1 (Or.inr (find-Mem rules (ground (arith, e))))
  ]

-- The rules of a network, in the order of the table.
abbrev pub applicable : ℕ → List AclRule → List AclRule
applicable network rules = keep (λ r. r.network_id == network) rules

find-none-all :
    (p : AclRule → Bool) (rules : List AclRule)
    → find p rules ≡ none
    → all (λ r. not (p r)) rules ≡ true
find-none-all p [] h = refl
find-none-all p (r ∷ rules) h = ground (arith, find-none-all p rules)

access-decide :
    (source dest : Device) (rules : List AclRule)
    → dest.is_active ≡ true
    → source.network_id ≡ dest.network_id
    → access_between source dest rules
      ≡ decide (find (is_match source dest) (rules_of source.network_id rules))
unfolding access_between
access-decide source dest rules on same = ground (arith, ==_iff source.network_id dest.network_id)

-- Between a device and an active device of the same network, either no rule of the network matches the
-- two and the access is granted; or a rule decides that is one of the network's and matches them, and
-- no matching rule of the network has a smaller priority.
pub access_between_lem :
    (source dest : Device) (rules : List AclRule)
    → dest.is_active ≡ true
    → source.network_id ≡ dest.network_id
    → ((all (λ r. not (is_match source dest r)) (applicable source.network_id rules) ≡ true)
        × (access_between source dest rules ≡ true))
      ⊎ ((b : AclRule) × Mem b (applicable source.network_id rules)
          × (is_match source dest b ≡ true)
          × (all
                (λ r. not (is_match source dest r && before r b))
                (applicable source.network_id rules)
              ≡ true)
          × (access_between source dest rules ≡ str_eq b.action "allow"))
unfolding rules_of
access_between_lem source dest rules on same =
    let p = is_match source dest in
    let mine = applicable source.network_id rules in
    elim (Option-cases (find p (sorted before mine))) [
      | inl e ↦ inl (
        sym (all-sorted before (λ r. not (p r)) mine) ∙ find-none-all p (sorted before mine) e,
        access-decide source dest rules on same ∙ ap decide e,
      )
      | inr (b, e) ↦ inr (
        b,
        (Perm.mem_iff (sorted-perm before mine)).0 (find-Mem p b (sorted before mine) e),
        find-some p (sorted before mine) b e,
        sym (all-sorted before (λ r. not (p r && before r b)) mine)
            ∙ found-first p b (sorted before mine)
                (sorted-IsSorted before before_asym before_trans mine) e,
        access-decide source dest rules on same ∙ ap decide e,
      )
    ]
