-- ===== src/AllowedIps/Bits.antt =====
-- common_bits counts the leading bits on which two addresses agree.
use wireguard_receive_path.Prelude.{
  ℕ, zero, suc, ◌+◌, ◌-◌, ◌≤◌, ◌<◌, ◌≡◌, Bool, true, false, ◌==◌, arith, refl, Bool-cases, inl, inr,
  sym, subst, ==_iff,
}
use wireguard_receive_path.AllowedIps.{Key, xor, fls, common_bits, prefix_matches}

abbrev pub Agrees : ℕ → Key → Key → Type 0
Agrees n a b = (i : ℕ) → i < n → a i ≡ b i

xor-false : (a b : Bool) → xor a b ≡ false → a ≡ b
xor-false true b h = ground (arith, h)
xor-false false b h = sym h

xor_self : (a b : Bool) → a ≡ b → xor a b ≡ false
xor_self a b h = ground (arith, h)

module _ (x : Key) where
  pub fls-le : (n i : ℕ) → fls n i x ≤ n
  unfolding fls
  fls-le zero i = omega arith
  fls-le (suc n) i = ground (arith, fls-le n (i + 1))

  -- All bits before the first that is set are clear.
  pub fls-clear : (n i j : ℕ) → i ≤ j → j + fls n i x < i + n → x j ≡ false
  unfolding fls
  fls-clear zero i j a b = absurd (omega arith)
  fls-clear (suc n) i j a b = elim (Bool-cases (x i)) [
    | inl set ↦ absurd (omega (arith, rw set at b))
    | inr clear ↦ elim (Bool-cases (i == j)) [
      | inl e ↦ rw (← (==_iff i j).0 e) clear
      | inr e ↦ fls-clear n (i + 1) j (ground (arith, e)) (omega (arith, rw clear at b))
    ]
  ]

  -- If the first `k` bits are clear, no more than the others are counted.
  pub clear-fls :
      (n i k : ℕ) → k ≤ n → ((j : ℕ) → i ≤ j → j < i + k → x j ≡ false) → fls n i x ≤ n - k
  unfolding fls
  clear-fls zero i k a h = omega arith
  clear-fls (suc n) i zero a h = omega (arith, fls-le (suc n) i)
  clear-fls (suc n) i (suc k) a h = rw (h i (omega arith) (omega arith)) (
      omega (arith, clear-fls n (i + 1) k (omega arith) (λ j p q. h j (omega arith) (omega arith))))

  -- The bit that stops the count is set.
  pub fls-set : (n i m : ℕ) → fls n i x ≡ suc m → x (i + (n - suc m)) ≡ true
  unfolding fls
  fls-set zero i m e = absurd (cc)
  fls-set (suc n) i m e = elim (Bool-cases (x i)) [
    | inl set ↦ ground (arith, set, rw set at e)
    | inr clear ↦
        let e' : fls n (i + 1) x ≡ suc m = rw clear at e in
        subst (λ j. x j ≡ true) (omega (arith, fls-le n (i + 1), e')) (fls-set n (i + 1) m e')
  ]

module _ (bits : ℕ) (a b : Key) where
  pub common_bits-le : common_bits bits a b ≤ bits
  unfolding common_bits
  common_bits-le = omega arith

  pub prefix_matches-Agrees : (n : ℕ) → n ≤ bits → prefix_matches bits n a b ≡ true → Agrees n a b
  unfolding common_bits
  prefix_matches-Agrees n le h i lt = xor-false (a i) (b i) (
      fls-clear (λ j. xor (a j) (b j)) bits 0 i (omega arith)
        (ground (arith, h, fls-le (λ j. xor (a j) (b j)) bits 0)))

  pub Agrees-prefix_matches : (n : ℕ) → n ≤ bits → Agrees n a b → prefix_matches bits n a b ≡ true
  unfolding common_bits
  Agrees-prefix_matches n le h = ground (
    arith,
    clear-fls (λ j. xor (a j) (b j)) bits 0 n le
        (λ j p q. xor_self (a j) (b j) (h j (omega arith))),
  )

  pub common_bits-differ :
      common_bits bits a b < bits → xor (a (common_bits bits a b)) (b (common_bits bits a b)) ≡ true
  unfolding common_bits
  common_bits-differ lt = go (fls bits 0 (λ j. xor (a j) (b j))) refl
    where
      go :
          (m : ℕ) → fls bits 0 (λ j. xor (a j) (b j)) ≡ m → xor (a (bits - m)) (b (bits - m)) ≡ true
      go zero e = absurd (omega (arith, lt, e))
      go (suc m) e =
          subst (λ i. xor (a i) (b i) ≡ true) (omega arith)
            (fls-set (λ j. xor (a j) (b j)) bits 0 m e)
