-- ===== src/Stun/Packing.antt =====
-- Byte strings, and the formats of Python's `struct` that the STUN code uses. `none` stands for
-- `struct.error`.
use midscale.Prelude.{
  ℕ, Bool, true, false, ◌&&◌, Option, none, some, List, [], ◌∷◌, ◌+◌, ◌*◌, ◌/◌, ◌%◌, ltb, ◌==◌,
  if◌then◌else◌,
}

abbrev pub Bytes : Type 0
Bytes = List ℕ

-- b == c
unfoldable pub bytes_eq : Bytes → Bytes → Bool
bytes_eq [] [] = true
bytes_eq [] (d ∷ c) = false
bytes_eq (a ∷ b) [] = false
bytes_eq (a ∷ b) (d ∷ c) = a == d && bytes_eq b c

abbrev pub bytes16 : ℕ → Bytes
bytes16 n = n / 256 ∷ n % 256 ∷ []

abbrev pub bytes32 : ℕ → Bytes
bytes32 n = n / 16777216 ∷ n / 65536 % 256 ∷ n / 256 % 256 ∷ n % 256 ∷ []

-- struct.pack("!H", n) and struct.pack("!I", n)
unfoldable pub pack16 : ℕ → Option Bytes
pack16 n = if ltb n 65536 then some (bytes16 n) else none

unfoldable pub pack32 : ℕ → Option Bytes
pack32 n = if ltb n 4294967296 then some (bytes32 n) else none

abbrev pub word16 : (a b : ℕ) → ℕ
word16 a b = a * 256 + b

abbrev pub word32 : (a b c d : ℕ) → ℕ
word32 a b c d = a * 16777216 + b * 65536 + c * 256 + d

-- struct.unpack("!I", data): exactly four bytes
abbrev pub unpack_i : Bytes → Option ℕ
unpack_i (a ∷ b ∷ c ∷ d ∷ []) = some (word32 a b c d)
unpack_i _ = none

-- struct.unpack_from: bytes may follow
abbrev pub unpack_from_i : Bytes → Option ℕ
unpack_from_i (a ∷ b ∷ c ∷ d ∷ _) = some (word32 a b c d)
unpack_from_i _ = none

abbrev pub unpack_from_hh : Bytes → Option (ℕ × ℕ)
unpack_from_hh (a ∷ b ∷ c ∷ d ∷ _) = some (word16 a b, word16 c d)
unpack_from_hh _ = none

abbrev pub unpack_from_hhi : Bytes → Option (ℕ × ℕ × ℕ)
unpack_from_hhi (a ∷ b ∷ c ∷ d ∷ e ∷ f ∷ g ∷ h ∷ _) = some (word16 a b, word16 c d, word32 e f g h)
unpack_from_hhi _ = none

abbrev pub unpack_from_bbh : Bytes → Option (ℕ × ℕ × ℕ)
unpack_from_bbh (a ∷ b ∷ c ∷ d ∷ _) = some (a, b, word16 c d)
unpack_from_bbh _ = none
