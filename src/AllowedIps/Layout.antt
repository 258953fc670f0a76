-- ===== src/AllowedIps/Layout.antt =====
-- swap_endian, copy_and_assign_cidr and choose (allowedips.c) on the bytes of an address, on a
-- little-endian machine.
use wireguard_receive_path.Prelude.{
  xor_bits, ℕ, zero, suc, ◌+◌, ◌-◌, ◌*◌, ◌/◌, ◌%◌, ◌^◌, ◌<◌, ◌≡◌, Bool, true, false, ◌==◌, ◌&&◌,
  if◌then◌else◌, arith, refl, Bool-cases, inl, inr, ap, ==_iff,
}

-- Memory in memory, by their place.
abbrev pub Memory : Type 0
Memory = ℕ → ℕ

-- A load of a big-endian word, and its store in the order of the machine.
unfoldable pub swap_endian : (bits : ℕ) → Memory → Memory
swap_endian bits src i =
    if bits == 32 then src (3 - i) else if bits == 128 then src (i / 8 * 8 + (7 - i % 8)) else 0

unfoldable pub bit_at_a : (cidr bits : ℕ) → ℕ
bit_at_a cidr bits = xor_bits 8 (cidr / 8) ((bits / 8 - 1) % 8)

unfoldable pub bit_at_b : (cidr : ℕ) → ℕ
bit_at_b cidr = 7 - cidr % 8

unfoldable pub choose : (cidr bits : ℕ) → Memory → ℕ
unfolding bit_at_a bit_at_b
choose cidr bits key = key (bit_at_a cidr bits) / 2 ^ bit_at_b cidr % 2

-- The bit `i` of an address as it is on the wire: the most significant bit of the first byte is bit 0.
abbrev pub wire_bit : Memory → ℕ → ℕ
wire_bit src i = src (i / 8) / 2 ^ (7 - i % 8) % 2

below : (n : ℕ) → (ℕ → Bool) → Bool
below zero p = true
below (suc n) p = p n && below n p

below-all : (n : ℕ) (p : ℕ → Bool) → below n p ≡ true → (i : ℕ) → i < n → p i ≡ true
unfolding below
below-all zero p h i lt = absurd (omega (arith, lt))
below-all (suc n) p h i lt = elim (Bool-cases (i == n)) [
  | inl e ↦ rw ((==_iff i n).0 e) (ground (arith, h))
  | inr e ↦ below-all n p (ground (arith, h)) i (ground (arith, e, lt))
]

byte_32 : (a : ℕ) → a < 4 → 3 - xor_bits 8 a 3 ≡ a
unfolding below
byte_32 a lt =
    (==_iff (3 - xor_bits 8 a 3) a).0 (below-all 4 (λ a. 3 - xor_bits 8 a 3 == a) all a lt)
  where
    all : below 4 (λ a. 3 - xor_bits 8 a 3 == a) ≡ true
    all = refl

byte_128 : (a : ℕ) → a < 16 → xor_bits 8 a 7 / 8 * 8 + (7 - xor_bits 8 a 7 % 8) ≡ a
unfolding below
byte_128 a lt =
    (==_iff (xor_bits 8 a 7 / 8 * 8 + (7 - xor_bits 8 a 7 % 8)) a).0
      (below-all 16 (λ a. xor_bits 8 a 7 / 8 * 8 + (7 - xor_bits 8 a 7 % 8) == a) all a lt)
  where
    all : below 16 (λ a. xor_bits 8 a 7 / 8 * 8 + (7 - xor_bits 8 a 7 % 8) == a) ≡ true
    all = refl

abbrev pub address_bits : (v6 : Bool) → ℕ
address_bits true = 128
address_bits false = 32

-- The child that the walk chooses at a node of `cidr` bits, from the swapped bytes of an address, is
-- that of the address's bit `cidr` as it is on the wire, for both families and every `cidr` that is
-- not the whole address.
pub choose-wire_bit :
    (v6 : Bool) (src : Memory) (cidr : ℕ)
    → cidr < address_bits v6
    → choose cidr (address_bits v6) (swap_endian (address_bits v6) src) ≡ wire_bit src cidr
unfolding choose swap_endian
choose-wire_bit true src cidr lt =
    ap (λ a. src a / 2 ^ (7 - cidr % 8) % 2) (byte_128 (cidr / 8) (omega (arith, lt)))
choose-wire_bit false src cidr lt =
    ap (λ a. src a / 2 ^ (7 - cidr % 8) % 2) (byte_32 (cidr / 8) (omega (arith, lt)))
