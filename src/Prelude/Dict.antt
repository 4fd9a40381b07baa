-- ===== src/Prelude/Dict.antt =====
-- Python's `dict`, as an association list in insertion order, at keys that may be `None` or a text.
use Prim.Native.String.{String}
use mathlib.Core.Path.{◌≡◌, refl}
use mathlib.Core.Logic.{◌↔◌}
use mathlib.Core.Bool.{Bool, true, false, not}
use mathlib.Core.Option.{Option, none, some}
use mathlib.Core.List.{List, [], ◌∷◌}
use native.Mathlib.Omega.{arith}
use text.Mathlib.TextEquality.{eq_iff}
use midscale.Prelude.Tests.{str_eq, if◌then◌else◌}

abbrev pub Key : Type 0
Key = Option String

abbrev pub key_eq : Key → Key → Bool
key_eq none none = true
key_eq none (some b) = false
key_eq (some a) none = false
key_eq (some a) (some b) = str_eq a b

pub key_eq_iff : (a b : Key) → (key_eq a b ≡ true) ↔ (a ≡ b)
key_eq_iff none none = ground arith
key_eq_iff none (some b) = ground arith
key_eq_iff (some a) none = ground arith
key_eq_iff (some a) (some b) = ground (arith, eq_iff a b)

abbrev pub Dict {ℓ} : Type ℓ → Type ℓ
Dict V = List (Key × V)

module _ {ℓ} {V : Type ℓ} where
  -- d.get(k)
  unfoldable pub get : Key → Dict V → Option V
  get k [] = none
  get k ((j, v) ∷ d) = if key_eq j k then some v else get k d

  -- d[k] = v
  unfoldable pub put : Key → V → Dict V → Dict V
  put k v [] = (k, v) ∷ []
  put k v ((j, w) ∷ d) = if key_eq j k then (j, v) ∷ d else (j, w) ∷ put k v d

  -- {k: v for k, v in d.items() if p(k, v)}
  unfoldable pub keep_items : (Key → V → Bool) → Dict V → Dict V
  keep_items p [] = []
  keep_items p ((j, w) ∷ d) = let rest = keep_items p d in if p j w then (j, w) ∷ rest else rest

  -- d.pop(k, None)
  unfoldable pub pop : Key → Dict V → Dict V
  unfolding keep_items
  pop k d = keep_items (λ j _. not (key_eq j k)) d

  pub get-put :
      (k j : Key) (v : V) (d : Dict V)
      → get j (put k v d) ≡ (if key_eq k j then some v else get j d)
  unfolding get put
  get-put k j v [] = refl
  get-put k j v ((i, w) ∷ d) =
      ground (arith, key_eq_iff k j, key_eq_iff i k, key_eq_iff i j, get-put k j v d)

  pub get-pop : (k j : Key) (d : Dict V) → get j (pop k d) ≡ (if key_eq k j then none else get j d)
  unfolding get pop keep_items
  get-pop k j [] = ground arith
  get-pop k j ((i, w) ∷ d) =
      ground (arith, key_eq_iff k j, key_eq_iff i k, key_eq_iff i j, get-pop k j d)

  -- A key whose value the filter keeps whatever its key's place is found as before.
  pub get-keep_items :
      (p : Key → V → Bool) (j : Key) (d : Dict V) (v : V)
      → get j d ≡ some v
      → p j v ≡ true
      → get j (keep_items p d) ≡ some v
  unfolding get keep_items
  get-keep_items p j [] v e h = cc
  get-keep_items p j ((i, w) ∷ d) v e h = ground (arith, key_eq_iff i j, get-keep_items p j d v)
