-- ===== src/Common/Bytes.antt =====
-- Bytes as numbers, and Rust strings as their UTF-8 bytes; little-endian words.
-- sdk/sdk-core/src/crypto/hashing.rs: `constant_time_eq`.
use Prim.Native.Nat.{ℕ, ◌+◌, ◌*◌, ◌/◌, ◌%◌, ◌^◌, ◌<◌}
use mathlib.Core.Path.{◌≡◌, refl, ap}
use mathlib.Core.Logic.{◌↔◌}
use mathlib.Core.Bool.{Bool, true, false, ◌&&◌}
use mathlib.Core.List.{List, [], ◌∷◌}
use Prim.Native.Char.{code}
use Prim.Native.String.{String}
use native.Mathlib.Omega.{arith}
use wattcloud.Common.Tests.{◌==◌, ltb, if◌then◌else◌, Eq}
use wattcloud.Common.Lists.{All, length, slice}

abbrev pub Bytes : Type 0
Bytes = List ℕ

abbrev pub IsByte : ℕ → Type 0
IsByte b = b < 256

-- `data[i]`, where the callers have checked that there is such a byte.
abbrev pub first_byte : Bytes → ℕ
first_byte [] = 0
first_byte (b ∷ bs) = b

abbrev pub byte_at : ℕ → Bytes → ℕ
byte_at i bs = first_byte (slice i (i + 1) bs)

-- The bytes of an ASCII literal.
abbrev pub codes : String → Bytes
codes String.[] = []
codes (String.◌∷◌ c s) = code c ∷ codes s

-- `a == b` on slices and strings.
unfoldable pub bytes_eq : Bytes → Bytes → Bool
bytes_eq [] [] = true
bytes_eq [] (y ∷ ys) = false
bytes_eq (x ∷ xs) [] = false
bytes_eq (x ∷ xs) (y ∷ ys) = x == y && bytes_eq xs ys

pub bytes_eq_sound : (xs ys : Bytes) → bytes_eq xs ys ≡ true → xs ≡ ys
unfolding bytes_eq
bytes_eq_sound [] [] h = refl
bytes_eq_sound [] (y ∷ ys) h = cc
bytes_eq_sound (x ∷ xs) [] h = cc
bytes_eq_sound (x ∷ xs) (y ∷ ys) h = ground (arith, bytes_eq_sound xs ys)

pub bytes_eq_refl : (xs : Bytes) → bytes_eq xs xs ≡ true
unfolding bytes_eq
bytes_eq_refl [] = refl
bytes_eq_refl (x ∷ xs) = ground (arith, bytes_eq_refl xs)

pub bytes_eq_iff : (xs ys : Bytes) → (bytes_eq xs ys ≡ true) ↔ (xs ≡ ys)
bytes_eq_iff xs ys = (bytes_eq_sound xs ys, λ e. rw e (bytes_eq_refl ys))

instance abbrev pub bytes_eq_inst : Eq Bytes
bytes_eq_inst = record { beq = bytes_eq; beq_iff = bytes_eq_iff }

-- `a < b` on strings: lexicographic on the bytes.
unfoldable pub bytes_lt : Bytes → Bytes → Bool
bytes_lt xs [] = false
bytes_lt [] (y ∷ ys) = true
bytes_lt (x ∷ xs) (y ∷ ys) = if ltb x y then true else x == y && bytes_lt xs ys

-- `constant_time_eq`: the lengths first, then the bytes.
unfoldable pub constant_time_eq : Bytes → Bytes → Bool
constant_time_eq a b = if length a == length b then bytes_eq a b else false

pub constant_time_eq_iff : (a b : Bytes) → (constant_time_eq a b ≡ true) ↔ (a ≡ b)
unfolding constant_time_eq
constant_time_eq_iff a b =
    (λ h. ground (arith, bytes_eq_sound a b), λ e. rw e (ground (arith, bytes_eq_refl b)))

-- `u16::to_le_bytes`, `u32::to_le_bytes` and back.
unfoldable pub to_le2 : ℕ → Bytes
to_le2 n = n % 256 ∷ (n / 256 % 256) ∷ []

unfoldable pub from_le2 : ℕ → ℕ → ℕ
from_le2 a b = a + b * 256

unfoldable pub to_le4 : ℕ → Bytes
to_le4 n = n % 256 ∷ (n / 256 % 256) ∷ (n / 65536 % 256) ∷ (n / 16777216 % 256) ∷ []

unfoldable pub from_le4 : ℕ → ℕ → ℕ → ℕ → ℕ
from_le4 a b c d = a + b * 256 + c * 65536 + d * 16777216

-- `u32::from_le_bytes(slice.try_into())`: a slice of another length is no word.
unfoldable pub read_le4 : Bytes → ℕ
unfolding from_le4
read_le4 (a ∷ b ∷ c ∷ d ∷ []) = from_le4 a b c d
read_le4 _ = 0

abbrev pub IsU32 : ℕ → Type 0
IsU32 n = n < 2 ^ 32

abbrev pub IsU64 : ℕ → Type 0
IsU64 n = n < 2 ^ 64

abbrev pub max_u32 : ℕ
max_u32 = 4294967295

abbrev pub max_u64 : ℕ
max_u64 = 18446744073709551615

-- `u64::saturating_add`
abbrev pub saturating_add : ℕ → ℕ → ℕ
saturating_add a b = if ltb max_u64 (a + b) then max_u64 else a + b

-- `u16::from_le_bytes([data[i], data[i + 1]])`
unfoldable pub read_le2 : Bytes → ℕ
unfolding from_le2
read_le2 (a ∷ b ∷ []) = from_le2 a b
read_le2 _ = 0

pub length-to_le4 : (n : ℕ) → length (to_le4 n) ≡ 4
unfolding to_le4
length-to_le4 n = refl

pub read_le4-to_le4 : (n : ℕ) → IsU32 n → read_le4 (to_le4 n) ≡ n
unfolding read_le4 to_le4
read_le4-to_le4 n h = omega arith

pub to_le4-IsByte : (n : ℕ) → All IsByte (to_le4 n)
unfolding to_le4
to_le4-IsByte n = omega arith

pub to_le4-injective : (m n : ℕ) → IsU32 m → IsU32 n → to_le4 m ≡ to_le4 n → m ≡ n
to_le4-injective m n hm hn e = omega (arith, read_le4-to_le4 m, read_le4-to_le4 n, ap read_le4 e)

pub read_le4-IsU32 : (bs : Bytes) → All IsByte bs → IsU32 (read_le4 bs)
unfolding read_le4
read_le4-IsU32 (a ∷ b ∷ c ∷ d ∷ []) h = omega (arith, h.0, h.1.0, h.1.1.0, h.1.1.1.0)
read_le4-IsU32 (a ∷ b ∷ c ∷ d ∷ e ∷ bs) h = omega arith
read_le4-IsU32 (a ∷ b ∷ c ∷ []) h = omega arith
read_le4-IsU32 (a ∷ b ∷ []) h = omega arith
read_le4-IsU32 (a ∷ []) h = omega arith
read_le4-IsU32 [] h = omega arith
