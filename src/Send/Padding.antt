-- ===== src/Send/Padding.antt =====
-- How much padding a packet gets.
use wireguard_receive_path.Prelude.{
  ℕ, ◌+◌, ◌-◌, ◌*◌, ◌/◌, ◌%◌, ◌^◌, ◌≤◌, ◌<◌, ◌≡◌, min, ap, subst, true, false, ltb, ◌==◌, ◌&&◌,
  if◌then◌else◌, refl, arith, Bool-cases, inl, inr,
}
use native.Mathlib.Nat.{mod-lt}
use wireguard_receive_path.Send.{Skb, align, calculate_skb_padding}

-- The next multiple of 16
abbrev pub rounded : ℕ → ℕ
rounded x = (x + 15) / 16 * 16

-- The length of what is padded: of a packet that is longer than the mtu, only the last piece.
abbrev pub last_piece : Skb → ℕ
last_piece skb = if ltb 0 skb.mtu && ltb skb.mtu skb.len then skb.len % skb.mtu else skb.len

without_wrap :
    (last padded : ℕ)
    → last ≤ padded
    → padded ≤ rounded last
    → last + 15 < 2 ^ 32
    → ((padded + 2 ^ 32 - last) % 2 ^ 32 < 16) × (last + (padded + 2 ^ 32 - last) % 2 ^ 32 ≡ padded)
without_wrap last padded le le' h = (omega arith, omega arith)

piece-le : (skb : Skb) → (0 < skb.mtu) → last_piece skb ≤ skb.mtu
piece-le skb h = elim (Bool-cases (ltb skb.mtu skb.len)) [
  | inl e ↦ ground (arith, e, h, mod-lt skb.len h)
  | inr e ↦ ground (arith, e, h)
]

piece-short : (skb : Skb) → (0 < skb.mtu) → last_piece skb ≤ skb.len
piece-short skb h = elim (Bool-cases (ltb skb.mtu skb.len)) [
  | inl e ↦ ground (arith, e, h, mod-lt skb.len h)
  | inr e ↦ ground (arith, e, h)
]

align-rounded : (x : ℕ) → x + 15 < 2 ^ 32 → align x ≡ rounded x
align-rounded x h = ap (λ y. y / 16 * 16) (omega (arith, h))

piece-rounded : (skb : Skb) → skb.len + 15 < 2 ^ 32 → (0 < skb.mtu) → last_piece skb + 15 < 2 ^ 32
piece-rounded skb short h = omega (arith, short, piece-short skb h)

last_piece-cases :
    (skb : Skb)
    → (0 < skb.mtu)
    → last_piece skb ≡ (if ltb skb.mtu skb.len then skb.len % skb.mtu else skb.len)
last_piece-cases skb h = let pos : ltb 0 skb.mtu ≡ true = ground (arith, h) in simp (pos) refl

piece-whole : (skb : Skb) → (skb.mtu == 0) ≡ true → last_piece skb ≡ skb.len
piece-whole skb e = let neg : ltb 0 skb.mtu ≡ false = ground (arith, e) in simp (neg) refl

padding_without_mtu :
    (skb : Skb)
    → skb.len + 15 < 2 ^ 32
    → (skb.mtu == 0) ≡ true
    → calculate_skb_padding skb ≡ (rounded skb.len + 2 ^ 32 - skb.len) % 2 ^ 32
unfolding calculate_skb_padding
padding_without_mtu skb short e =
    simp (e) (ap (λ x. (x + 2 ^ 32 - skb.len) % 2 ^ 32) (align-rounded skb.len short))

padding_with_mtu :
    (skb : Skb)
    → skb.len + 15 < 2 ^ 32
    → (skb.mtu == 0) ≡ false
    → calculate_skb_padding skb
      ≡ (min skb.mtu (rounded (last_piece skb)) + 2 ^ 32 - last_piece skb) % 2 ^ 32
unfolding calculate_skb_padding
padding_with_mtu skb short e =
    let h : 0 < skb.mtu = ground (arith, e) in
    simp (e) (
      subst
        (λ l.
          (min skb.mtu (align l) + 2 ^ 32 - l) % 2 ^ 32
          ≡ (min skb.mtu (rounded (last_piece skb)) + 2 ^ 32 - last_piece skb) % 2 ^ 32)
        (last_piece-cases skb h)
        (ap (λ x. (min skb.mtu x + 2 ^ 32 - last_piece skb) % 2 ^ 32)
          (align-rounded (last_piece skb) (piece-rounded skb short h))))

-- For a packet whose length can be rounded up in 32 bits, no subtraction wraps: the padding is less
-- than 16 bytes, and brings what is padded, the packet or its piece after the last whole mtu, to the
-- next multiple of 16, but not over the mtu, if there is one.
pub calculate_skb_padding_lem :
    (skb : Skb)
    → skb.len + 15 < 2 ^ 32
    → (calculate_skb_padding skb < 16)
      × (last_piece skb + calculate_skb_padding skb
          ≡ (if skb.mtu == 0 then rounded skb.len else min skb.mtu (rounded (last_piece skb))))
calculate_skb_padding_lem skb short = elim (Bool-cases (skb.mtu == 0)) [
  | inl e ↦
      rw (padding_without_mtu skb short e, piece-whole skb e)
        (simp (e) (without_wrap skb.len (rounded skb.len) (omega arith) (omega arith) short))
  | inr e ↦
      let h : 0 < skb.mtu = ground (arith, e) in
      rw (padding_with_mtu skb short e) (
        simp (e) (
          without_wrap (last_piece skb) (min skb.mtu (rounded (last_piece skb)))
            (omega (arith, piece-le skb h)) (omega arith) (piece-rounded skb short h)))
]
