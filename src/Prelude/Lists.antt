-- ===== src/Prelude/Lists.antt =====
-- Lists over the native numbers, searches and counts, as the program's loops and comprehensions use
-- them, and the lemmas on them that the components share.
use Prim.Native.Nat.{ℕ, zero, suc, ◌+◌, ◌≤◌}
use mathlib.Core.Path.{◌≡◌, refl, ap, ◌∙◌, sym}
use mathlib.Core.Bool.{Bool, true, false, ◌||◌, ◌&&◌}
use mathlib.Core.List.{List, [], ◌∷◌, ◌++◌, Mem, mem-cons}
use mathlib.Core.Logic.Or
use mathlib.Core.Logic.{inl, inr}
use mathlib.Core.Option.{Option, none, some}
use native.Mathlib.Omega.{arith}
use midscale.Prelude.Tests.{if◌then◌else◌, Bool-cases}

module _ {ℓ} {A : Type ℓ} where
  -- len(xs)
  abbrev pub length : List A → ℕ
  length [] = 0
  length (x ∷ xs) = suc (length xs)

  abbrev pub take : ℕ → List A → List A
  take zero xs = []
  take (suc n) [] = []
  take (suc n) (x ∷ xs) = x ∷ take n xs

  abbrev pub drop : ℕ → List A → List A
  drop zero xs = xs
  drop (suc n) [] = []
  drop (suc n) (x ∷ xs) = drop n xs

  -- [x for x in xs if p(x)]
  abbrev pub keep : (A → Bool) → List A → List A
  keep p [] = []
  keep p (x ∷ xs) = let rest = keep p xs in if p x then x ∷ rest else rest

  -- The first element that passes: a loop that breaks there.
  abbrev pub find : (A → Bool) → List A → Option A
  find p [] = none
  find p (x ∷ xs) = if p x then some x else find p xs

  -- any(p(x) for x in xs)
  abbrev pub any : (A → Bool) → List A → Bool
  any p [] = false
  any p (x ∷ xs) = p x || any p xs

  abbrev pub all : (A → Bool) → List A → Bool
  all p [] = true
  all p (x ∷ xs) = p x && all p xs

  -- How many elements pass.
  abbrev pub count : (A → Bool) → List A → ℕ
  count p [] = 0
  count p (x ∷ xs) = (if p x then 1 else 0) + count p xs

  -- Every row that passes is rewritten.
  abbrev pub update_where : (A → Bool) → (A → A) → List A → List A
  update_where p f [] = []
  update_where p f (x ∷ xs) = (if p x then f x else x) ∷ update_where p f xs

  -- The row that a query by primary key returned is rewritten.
  abbrev pub update_first : (A → Bool) → (A → A) → List A → List A
  update_first p f [] = []
  update_first p f (x ∷ xs) = if p x then f x ∷ xs else x ∷ update_first p f xs

  pub length-append : (xs ys : List A) → length (xs ++ ys) ≡ length xs + length ys
  length-append [] ys = omega arith
  length-append (x ∷ xs) ys = omega (arith, length-append xs ys)

  pub take-append : (n : ℕ) (xs ys : List A) → length xs ≡ n → take n (xs ++ ys) ≡ xs
  take-append zero [] ys h = refl
  take-append zero (x ∷ xs) ys h = absurd (omega arith)
  take-append (suc n) [] ys h = absurd (omega arith)
  take-append (suc n) (x ∷ xs) ys h = ap (λ zs. x ∷ zs) (take-append n xs ys (omega arith))

  pub drop-append : (n : ℕ) (xs ys : List A) → length xs ≡ n → drop n (xs ++ ys) ≡ ys
  drop-append zero [] ys h = refl
  drop-append zero (x ∷ xs) ys h = absurd (omega arith)
  drop-append (suc n) [] ys h = absurd (omega arith)
  drop-append (suc n) (x ∷ xs) ys h = drop-append n xs ys (omega arith)

  pub drop_more : (n k : ℕ) (xs : List A) → drop (n + k) xs ≡ drop k (drop n xs)
  drop_more zero k xs = ap (λ m. drop m xs) (omega arith)
  drop_more (suc n) zero [] = let e : suc n + 0 ≡ suc n = omega arith in ap (λ m. drop m []) e
  drop_more (suc n) (suc k) [] =
      let e : suc n + suc k ≡ suc (n + suc k) = omega arith in ap (λ m. drop m []) e
  drop_more (suc n) k (x ∷ xs) =
      let e : suc n + k ≡ suc (n + k) = omega arith in
      ap (λ m. drop m (x ∷ xs)) e ∙ drop_more n k xs

  pub count-append : (p : A → Bool) (xs ys : List A) → count p (xs ++ ys) ≡ count p xs + count p ys
  count-append p [] ys = omega arith
  count-append p (x ∷ xs) ys = omega (arith, count-append p xs ys)

  pub length-keep-eq-count : (p : A → Bool) (xs : List A) → length (keep p xs) ≡ count p xs
  length-keep-eq-count p [] = refl
  length-keep-eq-count p (x ∷ xs) = ground (arith, length-keep-eq-count p xs)

  pub length-update_where :
      (p : A → Bool) (f : A → A) (xs : List A) → length (update_where p f xs) ≡ length xs
  length-update_where p f [] = refl
  length-update_where p f (x ∷ xs) = ap suc (length-update_where p f xs)

  -- A rewritten row leaves the count of those that pass `q`, and its new value joins it.
  pub count-update_first :
      (q p : A → Bool) (f : A → A) (xs : List A) (x : A)
      → find p xs ≡ some x
      → count q (update_first p f xs) + (if q x then 1 else 0)
        ≡ count q xs + (if q (f x) then 1 else 0)
  count-update_first q p f [] x e = cc
  count-update_first q p f (y ∷ ys) x e = ground (arith, count-update_first q p f ys x)

  -- A rewriting that a test does not see leaves its count, and what holds of all.
  pub count-update_first_same :
      (q p : A → Bool) (f : A → A) (xs : List A)
      → ((x : A) → q (f x) ≡ q x)
      → count q (update_first p f xs) ≡ count q xs
  count-update_first_same q p f [] h = refl
  count-update_first_same q p f (y ∷ ys) h = ground (arith, h y, count-update_first_same q p f ys h)

  pub all-update_first_same :
      (q p : A → Bool) (f : A → A) (xs : List A)
      → ((x : A) → q (f x) ≡ q x)
      → all q (update_first p f xs) ≡ all q xs
  all-update_first_same q p f [] h = refl
  all-update_first_same q p f (y ∷ ys) h = ground (arith, h y, all-update_first_same q p f ys h)

  pub all-append : (p : A → Bool) (xs ys : List A) → all p (xs ++ ys) ≡ (all p xs && all p ys)
  all-append p [] ys = refl
  all-append p (x ∷ xs) ys = ground (arith, all-append p xs ys)

  pub keep-any : (p : A → Bool) (xs ys : List A) (x : A) → keep p xs ≡ x ∷ ys → any p xs ≡ true
  keep-any p [] ys x e = cc
  keep-any p (z ∷ zs) ys x e = ground (arith, keep-any p zs ys x)

  pub keep_none-count : (p : A → Bool) (xs : List A) → keep p xs ≡ [] → count p xs ≡ 0
  keep_none-count p [] e = refl
  keep_none-count p (x ∷ xs) e = ground (arith, keep_none-count p xs)

  pub count-keep_le : (q p : A → Bool) (xs : List A) → count q (keep p xs) ≤ count q xs
  count-keep_le q p [] = omega arith
  count-keep_le q p (x ∷ xs) = ground (arith, count-keep_le q p xs)

  pub all-keep : (q p : A → Bool) (xs : List A) → all q xs ≡ true → all q (keep p xs) ≡ true
  all-keep q p [] h = refl
  all-keep q p (x ∷ xs) h = ground (arith, all-keep q p xs)

  -- What a search finds passes the test.
  pub find-some : (p : A → Bool) (xs : List A) (x : A) → find p xs ≡ some x → p x ≡ true
  find-some p [] x e = cc
  find-some p (y ∷ ys) x e = ground (arith, find-some p ys x)

  pub find-update_first :
      (p : A → Bool) (f : A → A) (xs : List A) (x : A)
      → find p xs ≡ some x
      → p (f x) ≡ true
      → find p (update_first p f xs) ≡ some (f x)
  find-update_first p f [] x e h = cc
  find-update_first p f (y ∷ xs) x e h = ground (arith, find-update_first p f xs x)

  pub find-all :
      (p q : A → Bool) (xs : List A) (x : A) → all q xs ≡ true → find p xs ≡ some x → q x ≡ true
  find-all p q [] x h e = cc
  find-all p q (y ∷ ys) x h e = ground (arith, find-all p q ys x)

  -- A row that a search finds and a filter takes away was counted before.
  pub count-keep_removed :
      (p q r : A → Bool) (xs : List A) (x : A)
      → find p xs ≡ some x
      → q x ≡ true
      → r x ≡ false
      → count q (keep r xs) + 1 ≤ count q xs
  count-keep_removed p q r [] x e h k = cc
  count-keep_removed p q r (y ∷ ys) x e h k = elim (Bool-cases (p y)) [
    | inl s ↦
        let same : y ≡ x = ground (arith, s) in
        ground (arith, ap q same, ap r same, count-keep_le q r ys)
    | inr s ↦
        let rest = count-keep_removed p q r ys x (ground (arith, s)) h k in ground (arith, rest)
  ]

  -- What a search or a filter returns stands in the list.
  pub find-mem : (p : A → Bool) (xs : List A) (x : A) → find p xs ≡ some x → Mem x xs
  find-mem p [] x e = cc
  find-mem p (y ∷ ys) x e = elim (Bool-cases (p y)) [
    | inl h ↦ let same : y ≡ x = ground (arith, h) in mem-cons.1 (Or.inl (sym same))
    | inr h ↦ mem-cons.1 (Or.inr (find-mem p ys x (ground (arith, h))))
  ]

  pub keep-mem :
      (p : A → Bool) (xs ys : List A) (x : A) → keep p xs ≡ x ∷ ys → Mem x xs × (p x ≡ true)
  keep-mem p [] ys x e = cc
  keep-mem p (z ∷ zs) ys x e = elim (Bool-cases (p z)) [
    | inl h ↦
        let same : z ≡ x = ground (arith, h) in
        (mem-cons.1 (Or.inl (sym same)), ground (arith, h, same))
    | inr h ↦
        let rest = keep-mem p zs ys x (ground (arith, h)) in (mem-cons.1 (Or.inr rest.0), rest.1)
  ]
