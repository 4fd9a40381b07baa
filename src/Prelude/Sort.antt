-- ===== src/Prelude/Sort.antt =====
-- Python's `sorted`, a stable sort, as insertion from the right: `before y x` says that `y` has to
-- stand in front of `x`, and elements that neither has to keep their order.
use mathlib.Core.Path.{◌≡◌, refl}
use mathlib.Core.Logic.{inl, inr}
use mathlib.Core.Bool.{Bool, true, false, ◌&&◌}
use mathlib.Core.List.{List, [], ◌∷◌, Perm}
use mathlib.Core.List.Perm
use native.Mathlib.Omega.{arith}
use midscale.Prelude.Lists.{all, count}
use midscale.Prelude.Tests.{if◌then◌else◌, Bool-cases}

module _ {ℓ} {A : Type ℓ} (before : A → A → Bool) where
  unfoldable pub insert : A → List A → List A
  insert x [] = x ∷ []
  insert x (y ∷ ys) = let rest = insert x ys in if before y x then y ∷ rest else x ∷ y ∷ ys

  unfoldable pub sorted : List A → List A
  unfolding insert
  sorted [] = []
  sorted (x ∷ xs) = insert x (sorted xs)

  insert-perm : (x : A) (ys : List A) → Perm (insert x ys) (x ∷ ys)
  unfolding insert
  insert-perm x [] = Perm.refl _
  insert-perm x (y ∷ ys) = elim (Bool-cases (before y x)) [
    | inl e ↦ rw e (Perm.trans (Perm.cons y (insert-perm x ys)) (Perm.swap x y ys))
    | inr e ↦ rw e (Perm.refl _)
  ]

  -- Nothing is lost and nothing is added.
  pub sorted-perm : (xs : List A) → Perm (sorted xs) xs
  unfolding sorted
  sorted-perm [] = Perm.refl _
  sorted-perm (x ∷ xs) = Perm.trans (insert-perm x (sorted xs)) (Perm.cons x (sorted-perm xs))

module _ {ℓ} {A : Type ℓ} (before : A → A → Bool) (p : A → Bool) where
  all-insert : (x : A) (ys : List A) → all p (insert before x ys) ≡ (p x && all p ys)
  unfolding insert
  all-insert x [] = refl
  all-insert x (y ∷ ys) = ground (arith, all-insert x ys)

  pub all-sorted : (xs : List A) → all p (sorted before xs) ≡ all p xs
  unfolding sorted
  all-sorted [] = refl
  all-sorted (x ∷ xs) = ground (arith, all-insert x (sorted before xs), all-sorted xs)

  count-insert : (x : A) (ys : List A) → count p (insert before x ys) ≡ count p (x ∷ ys)
  unfolding insert
  count-insert x [] = refl
  count-insert x (y ∷ ys) = ground (arith, count-insert x ys)

  pub count-sorted : (xs : List A) → count p (sorted before xs) ≡ count p xs
  unfolding sorted
  count-sorted [] = refl
  count-sorted (x ∷ xs) = ground (arith, count-insert x (sorted before xs), count-sorted xs)

-- No element has to stand in front of one that comes earlier.
abbrev pub Leads {ℓ} : {A : Type ℓ} → (A → A → Bool) → A → List A → Type 0
Leads before x [] = Unit
Leads before x (y ∷ ys) = (before y x ≡ false) × Leads before x ys

abbrev pub IsSorted {ℓ} : {A : Type ℓ} → (A → A → Bool) → List A → Type 0
IsSorted before [] = Unit
IsSorted before (x ∷ xs) = Leads before x xs × IsSorted before xs

module _ {ℓ} {A : Type ℓ} (before : A → A → Bool)
    (asym : (a b : A) → before a b ≡ true → before b a ≡ false)
    (trans : (a b c : A) → before c b ≡ false → before b a ≡ false → before c a ≡ false) where
  Leads-trans : (a b : A) (xs : List A) → before b a ≡ false → Leads before b xs → Leads before a xs
  Leads-trans a b [] h l = tt
  Leads-trans a b (x ∷ xs) h l = (trans a b x l.0 h, Leads-trans a b xs h l.1)

  Leads-insert :
      (a x : A) (ys : List A)
      → before x a ≡ false
      → Leads before a ys
      → Leads before a (insert before x ys)
  unfolding insert
  Leads-insert a x [] h l = (h, tt)
  Leads-insert a x (y ∷ ys) h l = elim (Bool-cases (before y x)) [
    | inl e ↦ rw e (l.0, Leads-insert a x ys h l.1)
    | inr e ↦ rw e (h, l)
  ]

  insert-IsSorted :
      (x : A) (ys : List A) → IsSorted before ys → IsSorted before (insert before x ys)
  unfolding insert
  insert-IsSorted x [] h = (tt, tt)
  insert-IsSorted x (y ∷ ys) h = elim (Bool-cases (before y x)) [
    | inl e ↦ rw e (Leads-insert y x ys (asym y x e) h.0, insert-IsSorted x ys h.1)
    | inr e ↦ rw e ((e, Leads-trans x y ys e h.0), h)
  ]

  pub sorted-IsSorted : (xs : List A) → IsSorted before (sorted before xs)
  unfolding sorted
  sorted-IsSorted [] = tt
  sorted-IsSorted (x ∷ xs) = insert-IsSorted x (sorted before xs) (sorted-IsSorted xs)
