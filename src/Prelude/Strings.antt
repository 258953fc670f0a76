-- ===== src/Prelude/Strings.antt =====
-- Byte strings, and what memcmp and crypto_memneq say of them.
use Prim.Native.Nat.{ℕ, zero, suc, ◌+◌, ◌*◌, ◌/◌, ◌%◌}
use mathlib.Core.Bool.{Bool, true, false, ◌&&◌}
use mathlib.Core.List.{List, [], ◌∷◌}
use mathlib.Core.Path.{◌≡◌, refl}
use native.Mathlib.Omega.{arith}
use wireguard_receive_path.Prelude.Tests.{ltb, ◌==◌, if◌then◌else◌}

abbrev pub Bytes : Type 0
Bytes = List ℕ

-- `a ^ b` of the lowest `n` bits.
abbrev pub xor_bits : (n a b : ℕ) → ℕ
xor_bits zero a b = 0
xor_bits (suc n) a b = (a + b) % 2 + 2 * xor_bits n (a / 2) (b / 2)

-- memcmp of two strings of one length is greater than 0.
unfoldable pub is_greater : Bytes → Bytes → Bool
is_greater [] ys = false
is_greater (x ∷ xs) [] = true
is_greater (x ∷ xs) (y ∷ ys) = let rest = is_greater xs ys in if x == y then rest else ltb y x

-- crypto_memneq of two strings of one length is 0.
unfoldable pub same_bytes : Bytes → Bytes → Bool
same_bytes [] [] = true
same_bytes (x ∷ xs) (y ∷ ys) = (x == y) && same_bytes xs ys
same_bytes _ _ = false

pub same_bytes_self : (xs : Bytes) → same_bytes xs xs ≡ true
unfolding same_bytes
same_bytes_self [] = refl
same_bytes_self (x ∷ xs) = ground (arith, same_bytes_self xs)

-- crypto_memneq(…) == 0 for a string of zeros
abbrev pub is_zero : Bytes → Bool
is_zero [] = true
is_zero (x ∷ xs) = (x == 0) && is_zero xs

pub is_greater_self : (a : Bytes) → is_greater a a ≡ false
unfolding is_greater
is_greater_self [] = refl
is_greater_self (x ∷ xs) = ground (arith, is_greater_self xs)

pub is_greater_trans :
    (a b c : Bytes) → is_greater a b ≡ false → is_greater b c ≡ false → is_greater a c ≡ false
unfolding is_greater
is_greater_trans [] b c h h' = refl
is_greater_trans (x ∷ xs) [] c h h' = absurd (cc)
is_greater_trans (x ∷ xs) (y ∷ ys) [] h h' = absurd (cc)
is_greater_trans (x ∷ xs) (y ∷ ys) (z ∷ zs) h h' =
    let rest = is_greater_trans xs ys zs in ground (arith, h, h', rest)

pub greater_first : (a b : Bytes) → is_greater a b ≡ true → is_greater b a ≡ false
unfolding is_greater
greater_first [] b h = absurd (cc)
greater_first (x ∷ xs) [] h = refl
greater_first (x ∷ xs) (y ∷ ys) h = let rest = greater_first xs ys in ground (arith, h, rest)
