-- ===== src/Stun/Xor.antt =====
-- Exclusive or at any numbers: taken twice it gives the number back, and it stays below a power of two.
use Prim.Native.Nat.{bit_xor, digits, differ, bit_xor-bitwise}
use midscale.Prelude.{ℕ, zero, suc, ◌+◌, ◌*◌, ◌/◌, ◌%◌, ◌^◌, ◌≤◌, ◌<◌, ◌≡◌, refl, arith}

abbrev xor_digits : ℕ → ℕ → ℕ → ℕ
xor_digits n a b = digits (λ b. b) differ n a b

-- Any two counts of digits that reach the number give the same.
digits_agree :
    (a b : ℕ) (more less : ℕ) → (a ≤ more) × (a ≤ less) → xor_digits more a b ≡ xor_digits less a b
digits_agree zero b zero zero h = refl
digits_agree zero b zero (suc l) h = refl
digits_agree zero b (suc k) zero h = refl
digits_agree zero b (suc k) (suc l) h = refl
digits_agree (suc a) b zero l h = absurd (omega (arith, h.0))
digits_agree (suc a) b (suc k) zero h = absurd (omega (arith, h.1))
digits_agree (suc a) b (suc k) (suc l) h =
    let half_fits : (suc a / 2 ≤ k) × (suc a / 2 ≤ l) = (omega (arith, h.0), omega (arith, h.1)) in
    omega (arith, digits_agree (suc a / 2) (b / 2) k l half_fits)

zero-bit_xor : (b : ℕ) → bit_xor 0 b ≡ b
zero-bit_xor b = bit_xor-bitwise 0 b

differ-zero : (b : ℕ) → differ 0 b ≡ b
differ-zero b = refl

-- The law for the lowest digit.
bit_xor_step : (a b : ℕ) → bit_xor a b ≡ bit_xor (a / 2) (b / 2) * 2 + differ (a % 2) (b % 2)
bit_xor_step zero b = omega (arith, zero-bit_xor b, zero-bit_xor (b / 2), differ-zero (b % 2))
bit_xor_step (suc a) b =
    let half = suc a / 2 in
    let reach : (half ≤ a) × (half ≤ half) = (omega arith, omega arith) in
    omega (
      arith,
      digits_agree half (b / 2) a half reach,
      bit_xor-bitwise half (b / 2),
      bit_xor-bitwise (suc a) b,
    )

differ_bound : (x y : ℕ) → x < 2 → y < 2 → differ x y < 2
differ_bound zero y p q = q
differ_bound (suc zero) zero p q = omega arith
differ_bound (suc zero) (suc zero) p q = omega arith
differ_bound (suc zero) (suc (suc y)) p q = absurd (omega arith)
differ_bound (suc (suc x)) y p q = absurd (omega arith)

differ_twice : (x y : ℕ) → x < 2 → y < 2 → differ (differ x y) y ≡ x
differ_twice zero zero p q = refl
differ_twice zero (suc zero) p q = refl
differ_twice zero (suc (suc y)) p q = absurd (omega arith)
differ_twice (suc zero) zero p q = refl
differ_twice (suc zero) (suc zero) p q = refl
differ_twice (suc zero) (suc (suc y)) p q = absurd (omega arith)
differ_twice (suc (suc x)) y p q = absurd (omega arith)

half_of : (h d : ℕ) → d < 2 → (h * 2 + d) / 2 ≡ h
half_of h d p = omega arith

rest_of : (h d : ℕ) → d < 2 → (h * 2 + d) % 2 ≡ d
rest_of h d p = omega arith

module _ (a b : ℕ) where
  digit_bound : differ (a % 2) (b % 2) < 2
  digit_bound = differ_bound (a % 2) (b % 2) (omega arith) (omega arith)

  bit_xor-half : bit_xor a b / 2 ≡ bit_xor (a / 2) (b / 2)
  bit_xor-half =
      rw (bit_xor_step a b) (half_of (bit_xor (a / 2) (b / 2)) (differ (a % 2) (b % 2)) digit_bound)

  bit_xor-digit : bit_xor a b % 2 ≡ differ (a % 2) (b % 2)
  bit_xor-digit =
      rw (bit_xor_step a b) (rest_of (bit_xor (a / 2) (b / 2)) (differ (a % 2) (b % 2)) digit_bound)

  xor_twice_step : bit_xor (bit_xor (a / 2) (b / 2)) (b / 2) ≡ a / 2 → bit_xor (bit_xor a b) b ≡ a
  xor_twice_step h =
      rw
        (
          bit_xor_step (bit_xor a b) b,
          bit_xor-half,
          bit_xor-digit,
          h,
          differ_twice (a % 2) (b % 2) (omega arith) (omega arith),
        )
        (omega arith)

-- Below 2^w, by the digits.
bit_xor_bound : (w a b : ℕ) → a < 2 ^ w → b < 2 ^ w → bit_xor a b < 2 ^ w
bit_xor_bound zero zero b p q = rw (zero-bit_xor b) q
bit_xor_bound zero (suc a) b p q = absurd (omega arith)
bit_xor_bound (suc w) a b p q = omega (
  arith,
  bit_xor_step a b,
  digit_bound a b,
  bit_xor_bound w (a / 2) (b / 2) (omega arith) (omega arith),
)

bit_xor_twice_fuel : (w a b : ℕ) → a < 2 ^ w → b < 2 ^ w → bit_xor (bit_xor a b) b ≡ a
bit_xor_twice_fuel zero zero zero p q = refl
bit_xor_twice_fuel zero zero (suc b) p q = absurd (omega arith)
bit_xor_twice_fuel zero (suc a) b p q = absurd (omega arith)
bit_xor_twice_fuel (suc w) a b p q =
    xor_twice_step a b (bit_xor_twice_fuel w (a / 2) (b / 2) (omega arith) (omega arith))

pub bit_xor16 : (a b : ℕ) → a < 65536 → b < 65536 → bit_xor a b < 65536
bit_xor16 a b p q = bit_xor_bound 16 a b p q

pub bit_xor32 : (a b : ℕ) → a < 4294967296 → b < 4294967296 → bit_xor a b < 4294967296
bit_xor32 a b p q = bit_xor_bound 32 a b p q

pub bit_xor_twice : (a b : ℕ) → a < 4294967296 → b < 4294967296 → bit_xor (bit_xor a b) b ≡ a
bit_xor_twice a b p q = bit_xor_twice_fuel 32 a b p q
