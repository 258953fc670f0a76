-- ===== src/AllowedIps/Longest.antt =====
-- find_node finds the longest prefix that the trie has for an address.
use wireguard_receive_path.Prelude.{
  ℕ, zero, suc, ◌≤◌, ◌<◌, ◌≡◌, true, ◌==◌, if◌then◌else◌, Option, none, some, arith, refl,
  Bool-cases, inl, inr, sym, ap₂, ==_iff, ap, ◌∙◌,
}
use wireguard_receive_path.AllowedIps.{Key, Trie, nil, node, has_peer, prefix_matches, find_node}
use wireguard_receive_path.AllowedIps.Shape.{
  or_else, or_else-none, or_else_assoc, Fits, IsTrie, exact, exact-nil, exact-stop, exact-here,
  exact-below, exact-short,
}

-- The first peer on the way down from the prefix of `n` bits.
abbrev pub longest : (ℕ → Option ℕ) → ℕ → Option ℕ
longest f zero = f 0
longest f (suc n) = or_else (f (suc n)) (longest f n)

pub longest_cong :
    (f g : ℕ → Option ℕ) → ((c : ℕ) → f c ≡ g c) → (n : ℕ) → longest f n ≡ longest g n
longest_cong f g h zero = h 0
longest_cong f g h (suc n) = ap₂ or_else (h (suc n)) (longest_cong f g h n)

longest-none : (f : ℕ → Option ℕ) (n : ℕ) → ((c : ℕ) → c ≤ n → f c ≡ none) → longest f n ≡ none
longest-none f zero h = h 0 (omega arith)
longest-none f (suc n) h =
    rw (h (suc n) (omega arith)) (longest-none f n (λ c le. h c (omega arith)))

-- A function that is none before `c`, `q` at `c`, and `g` after, where `g` is none up to `c`.
longest_from :
    (f g : ℕ → Option ℕ) (c : ℕ) (q : Option ℕ)
    → ((i : ℕ) → i < c → f i ≡ none)
    → f c ≡ q
    → ((i : ℕ) → c < i → f i ≡ g i)
    → ((i : ℕ) → i ≤ c → g i ≡ none)
    → (n : ℕ) → c ≤ n
    → longest f n ≡ or_else (longest g n) q
longest_from f g c q before at after short zero le =
    rw (short 0 (omega arith)) (ap f (omega (arith, le)) ∙ at)
longest_from f g c q before at after short (suc n) le = elim (Bool-cases (c == suc n)) [
  | inl e ↦
      let e' : c ≡ suc n = (==_iff c (suc n)).0 e in
      rw (short (suc n) (omega (arith, e'))) (
        rw (longest-none f n (λ i h. before i (omega (arith, e')))) (
          rw (longest-none g n (λ i h. short i (omega (arith, e'))))
            (or_else-none (f (suc n)) ∙ ap f (sym e') ∙ at)))
  | inr e ↦
      let lt : c ≤ n = ground (arith, e) in
      ap₂ or_else (after (suc n) (omega (arith, lt)))
        (longest_from f g c q before at after short n lt)
      ∙ sym (or_else_assoc (g (suc n)) (longest g n) q)
]

module _ (bits : ℕ) (key : Key) where
  -- A node that matches adds its own peer to what the child on the key's side has.
  node-longest :
      (q : Option ℕ) (c : ℕ) (n : Key) (z o child : Trie)
      → prefix_matches bits c n key ≡ true
      → c ≤ bits
      → ((i : ℕ) → c < i → exact bits key i (node q c n z o) ≡ exact bits key i child)
      → Fits c n (key c) child
      → longest (λ i. exact bits key i (node q c n z o)) bits
        ≡ or_else (longest (λ i. exact bits key i child) bits) q
  node-longest q c n z o child m le after fits =
      longest_from (λ i. exact bits key i (node q c n z o)) (λ i. exact bits key i child) c q
        (λ i lt. exact-stop bits key i q c n z o (ground (arith, lt)))
        (exact-here bits key q c n z o m) after
        (λ i short. exact-short bits key i c n (key c) child fits short) bits le

  or_else-has_peer : (q found : Option ℕ) → (if has_peer q then q else found) ≡ or_else q found
  or_else-has_peer none found = refl
  or_else-has_peer (some p) found = refl

  pub find_node-longest :
      (t : Trie) (found : Option ℕ)
      → IsTrie bits t
      → find_node bits key t found ≡ or_else (longest (λ c. exact bits key c t) bits) found
  unfolding find_node
  find_node-longest nil found w =
      rw (longest-none (λ c. exact bits key c nil) bits (λ c le. exact-nil bits key c)) refl
  find_node-longest (node q c n z o) found (le, fz, fo, wz, wo) =
      elim (Bool-cases (prefix_matches bits c n key)) [
        | inr off ↦
            rw
              (longest-none (λ i. exact bits key i (node q c n z o)) bits
                (λ i h. exact-stop bits key i q c n z o (ground (arith, off))))
              (simp (off) refl)
        | inl on ↦ elim (Bool-cases (key c)) [
          | inl up ↦
              simp (on, up)
                (node_step o (λ i lt. exact-below bits key i q c n z o on lt ∙ simp (up) refl)
                  (rw up fo) (find_node-longest o (if has_peer q then q else found) wo) on)
          | inr down ↦
              simp (on, down)
                (node_step z (λ i lt. exact-below bits key i q c n z o on lt ∙ simp (down) refl)
                  (rw down fz) (find_node-longest z (if has_peer q then q else found) wz) on)
        ]
      ]
    where
      node_step :
          (child : Trie)
          → ((i : ℕ) → c < i → exact bits key i (node q c n z o) ≡ exact bits key i child)
          → Fits c n (key c) child
          → find_node bits key child (if has_peer q then q else found)
            ≡ or_else (longest (λ i. exact bits key i child) bits) (if has_peer q then q else found)
          → prefix_matches bits c n key ≡ true
          → (if c == bits
              then if has_peer q then q else found
              else find_node bits key child (if has_peer q then q else found))
            ≡ or_else (longest (λ i. exact bits key i (node q c n z o)) bits) found
      node_step child after fits below on = rw (node-longest q c n z o child on le after fits) (
          rw (or_else_assoc (longest (λ i. exact bits key i child) bits) q found) (
            rw (← or_else-has_peer q found) (elim (Bool-cases (c == bits)) [
              | inr e ↦ simp (e) below
              | inl e ↦ simp (e) (
                  rw
                    (longest-none (λ i. exact bits key i child) bits
                      (λ i h. exact-short bits key i c n (key c) child fits (ground (arith, e))))
                    refl)
            ])))
