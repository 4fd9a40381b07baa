-- ===== src/Prelude/Texts.antt =====
-- Python's slices of texts, by characters.
use Prim.Native.Nat.{ℕ, zero, suc, ◌+◌}
use Prim.Native.String.{String, ◌++◌}
use Prim.Native.String.append
use Prim.Native.Char.{code}
use mathlib.Core.Option.{Option, none, some}
use midscale.Prelude.Tests.{◌==◌, if◌then◌else◌}
use mathlib.Core.Path.{◌≡◌, refl, ap, ◌∙◌}
use native.Mathlib.Omega.{arith}

-- len(s)
unfoldable pub count_chars : String → ℕ
count_chars String.[] = 0
count_chars (String.◌∷◌ c s) = suc (count_chars s)

-- s[:n] and s[n:]
unfoldable pub take_chars : ℕ → String → String
take_chars zero s = ""
take_chars (suc n) String.[] = ""
take_chars (suc n) (String.◌∷◌ c s) = String.◌∷◌ c (take_chars n s)

unfoldable pub drop_chars : ℕ → String → String
drop_chars zero s = s
drop_chars (suc n) String.[] = ""
drop_chars (suc n) (String.◌∷◌ c s) = drop_chars n s

-- s.split(d)[0], and what follows the first d, for the character of a code point.
unfoldable pub before_code : ℕ → String → String
before_code k String.[] = ""
before_code k (String.◌∷◌ c s) = if code c == k then "" else String.◌∷◌ c (before_code k s)

unfoldable pub after_code : ℕ → String → Option String
after_code k String.[] = none
after_code k (String.◌∷◌ c s) = if code c == k then some s else after_code k s

pub take_chars-append : (s t : String) → take_chars (count_chars s) (s ++ t) ≡ s
unfolding count_chars take_chars
take_chars-append String.[] t = refl
take_chars-append (String.◌∷◌ c s) t =
    ap (take_chars (suc (count_chars s))) (append.cons c s t)
    ∙ ap (λ r. String.◌∷◌ c r) (take_chars-append s t)

pub drop_chars-append : (s t : String) → drop_chars (count_chars s) (s ++ t) ≡ t
unfolding count_chars drop_chars
drop_chars-append String.[] t = append.nil t
drop_chars-append (String.◌∷◌ c s) t =
    ap (drop_chars (suc (count_chars s))) (append.cons c s t) ∙ drop_chars-append s t

pub count_chars-append : (s t : String) → count_chars (s ++ t) ≡ count_chars s + count_chars t
unfolding count_chars
count_chars-append String.[] t = omega (arith, ap count_chars (append.nil t))
count_chars-append (String.◌∷◌ c s) t =
    omega (arith, ap count_chars (append.cons c s t), count_chars-append s t)

-- s[n + k:]
pub drop_chars_more : (n k : ℕ) (s : String) → drop_chars (n + k) s ≡ drop_chars k (drop_chars n s)
unfolding drop_chars
drop_chars_more zero k s = ap (λ m. drop_chars m s) (omega arith)
drop_chars_more (suc n) zero String.[] =
    let e : suc n + 0 ≡ suc n = omega arith in ap (λ m. drop_chars m String.[]) e
drop_chars_more (suc n) (suc k) String.[] =
    let e : suc n + suc k ≡ suc (n + suc k) = omega arith in ap (λ m. drop_chars m String.[]) e
drop_chars_more (suc n) k (String.◌∷◌ c s) =
    let e : suc n + k ≡ suc (n + k) = omega arith in
    ap (λ m. drop_chars m (String.◌∷◌ c s)) e ∙ drop_chars_more n k s

-- The code point of the last character, of an empty text the default.
unfoldable pub last_code : ℕ → String → ℕ
last_code d String.[] = d
last_code d (String.◌∷◌ c s) = last_code (code c) s

pub last_code-append : (d : ℕ) (s t : String) → last_code d (s ++ t) ≡ last_code (last_code d s) t
unfolding last_code
last_code-append d String.[] t = ap (last_code d) (append.nil t)
last_code-append d (String.◌∷◌ c s) t =
    ap (last_code d) (append.cons c s t) ∙ last_code-append (code c) s t
