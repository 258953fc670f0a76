-- ===== src/AllowedIps/Shape.antt =====
-- The shape of a trie, and the peer that it has for a prefix.
use wireguard_receive_path.Prelude.{
  ℕ, ◌≤◌, ◌<◌, ◌≡◌, Bool, true, false, ◌==◌, ◌&&◌, not, if◌then◌else◌, Option, none, some, arith,
  refl, Bool-cases, inl, inr, sym, ◌∙◌,
}
use wireguard_receive_path.AllowedIps.{Key, Trie, nil, node, prefix_matches, goes_below}
use wireguard_receive_path.AllowedIps.Bits.{Agrees, prefix_matches-Agrees, Agrees-prefix_matches}

pub not_both : {b : Bool} → b ≡ true → ¬ (b ≡ false)
not_both t f = ground (arith, t, f)

abbrev pub or_else : Option ℕ → Option ℕ → Option ℕ
or_else none b = b
or_else (some a) b = some a

pub or_else-none : (a : Option ℕ) → or_else a none ≡ a
or_else-none none = refl
or_else-none (some a) = refl

pub or_else_assoc : (a b c : Option ℕ) → or_else (or_else a b) c ≡ or_else a (or_else b c)
or_else_assoc none b c = refl
or_else_assoc (some a) b c = refl

-- A subtree on the side `b` of a node of this cidr and these bits: longer, with the same first bits, and
-- `b` as the next one.
abbrev pub Fits : ℕ → Key → Bool → Trie → Type 0
Fits c n b nil = Unit
Fits c n b (node q c' n' z o) = (c < c') × Agrees c n n' × (n' c ≡ b)

abbrev pub IsTrie : ℕ → Trie → Type 0
IsTrie bits nil = Unit
IsTrie bits (node q c n z o) =
    (c ≤ bits) × Fits c n false z × Fits c n true o × IsTrie bits z × IsTrie bits o

-- The peer that the trie has for a prefix: where the walk of node_placement ends exactly.
unfoldable pub exact : (bits : ℕ) → Key → (cidr : ℕ) → Trie → Option ℕ
exact bits key cidr nil = none
exact bits key cidr (node q c n z o) =
    let left = exact bits key cidr z in
    let right = exact bits key cidr o in
    if not (goes_below bits key cidr c n)
    then none
    else if c == cidr
    then q
    else if key c
    then right
    else left

-- The prefixes of two keys are the same.
abbrev pub same_prefix : (bits cidr : ℕ) → Key → (cidr' : ℕ) → Key → Bool
same_prefix bits c k c' k' = (c == c') && prefix_matches bits c k k'

pub same_prefix-Agrees :
    (bits c : ℕ) (n : Key) (i : ℕ) (k : Key)
    → c ≤ bits
    → same_prefix bits c n i k ≡ true
    → (c ≡ i) × Agrees c n k
same_prefix-Agrees bits c n i k le h =
    (ground (arith, h), prefix_matches-Agrees bits n k c le (ground (arith, h)))

pub Agrees-same_prefix :
    (bits c : ℕ) (n : Key) (i : ℕ) (k : Key)
    → c ≤ bits
    → c ≡ i
    → Agrees c n k
    → same_prefix bits c n i k ≡ true
Agrees-same_prefix bits c n i k le e h = ground (arith, e, Agrees-prefix_matches bits n k c le h)

pub same_prefix-longer :
    (bits c : ℕ) (n : Key) (i : ℕ) (k : Key) → c < i → same_prefix bits c n i k ≡ false
same_prefix-longer bits c n i k lt = ground (arith, lt)

-- Only the first bits count.
pub same_prefix-agreeing :
    (bits c : ℕ) (a b : Key) (i : ℕ) (k : Key)
    → c ≤ bits
    → Agrees c a b
    → same_prefix bits c a i k ≡ same_prefix bits c b i k
same_prefix-agreeing bits c a b i k le h = elim (Bool-cases (same_prefix bits c a i k)) [
  | inl e ↦
      let p = same_prefix-Agrees bits c a i k le e in
      e ∙ sym (Agrees-same_prefix bits c b i k le p.0 (λ j lt. sym (h j lt) ∙ p.1 j lt))
  | inr e ↦ elim (Bool-cases (same_prefix bits c b i k)) [
    | inr e' ↦ e ∙ sym e'
    | inl e' ↦
        let p = same_prefix-Agrees bits c b i k le e' in
        absurd (not_both (Agrees-same_prefix bits c a i k le p.0 (λ j lt. h j lt ∙ p.1 j lt)) e)
  ]
]

module _ (bits : ℕ) (key : Key) where
  pub exact-nil : (cidr : ℕ) → exact bits key cidr nil ≡ none
  unfolding exact
  exact-nil cidr = refl

  -- A walk does not reach a node that is longer, or whose bits are others.
  pub exact-stop :
      (cidr : ℕ) (q : Option ℕ) (c : ℕ) (n : Key) (z o : Trie)
      → goes_below bits key cidr c n ≡ false
      → exact bits key cidr (node q c n z o) ≡ none
  unfolding exact
  exact-stop cidr q c n z o h = simp h refl

  pub exact-here :
      (q : Option ℕ) (c : ℕ) (n : Key) (z o : Trie)
      → prefix_matches bits c n key ≡ true
      → exact bits key c (node q c n z o) ≡ q
  unfolding exact
  exact-here q c n z o h = ground (arith, h)

  pub exact-below :
      (cidr : ℕ) (q : Option ℕ) (c : ℕ) (n : Key) (z o : Trie)
      → prefix_matches bits c n key ≡ true
      → c < cidr
      → exact bits key cidr (node q c n z o)
        ≡ (if key c then exact bits key cidr o else exact bits key cidr z)
  unfolding exact
  exact-below cidr q c n z o h lt = ground (arith, h, lt)

  -- Nor one of a subtree that starts further down.
  pub exact-short :
      (cidr c : ℕ) (n : Key) (b : Bool) (t : Trie)
      → Fits c n b t
      → cidr ≤ c
      → exact bits key cidr t ≡ none
  unfolding exact
  exact-short cidr c n b nil f le = refl
  exact-short cidr c n b (node q c' n' z o) f le = ground (arith, f.0, le)

  -- Nor one on the other side.
  pub exact-off :
      (cidr c : ℕ) (n : Key) (b : Bool) (t : Trie)
      → Fits c n b t
      → IsTrie bits t
      → ¬ (Agrees c n key × (key c ≡ b))
      → exact bits key cidr t ≡ none
  unfolding exact
  exact-off cidr c n b nil f w off = refl
  exact-off cidr c n b (node q c' n' z o) (lt, same, side) w off =
      elim (Bool-cases (prefix_matches bits c' n' key)) [
        | inr e ↦ exact-stop cidr q c' n' z o (ground (arith, e))
        | inl e ↦
            let all : Agrees c' n' key = prefix_matches-Agrees bits n' key c' w.0 e in
            absurd (off ((λ i h. same i h ∙ all i (omega arith)), (sym (all c lt) ∙ side)))
      ]

  child-none :
      (cidr c : ℕ) (n : Key) (b : Bool) (t : Trie)
      → c ≤ bits
      → goes_below bits key cidr c n ≡ false
      → Fits c n b t
      → IsTrie bits t
      → exact bits key cidr t ≡ none
  child-none cidr c n b t le e fits w = elim (Bool-cases (prefix_matches bits c n key)) [
    | inl on ↦ exact-short cidr c n b t fits (ground (arith, on, e))
    | inr off ↦
        exact-off cidr c n b t fits w
          (λ h. absurd (not_both (Agrees-prefix_matches bits n key c le h.0) off))
  ]

  same_prefix-cases :
      (cidr c : ℕ) (n : Key)
      → goes_below bits key cidr c n ≡ true
      → same_prefix bits c n cidr key ≡ (c == cidr)
  same_prefix-cases cidr c n e = ground (arith, e)

  same_prefix-off :
      (cidr c : ℕ) (n : Key)
      → goes_below bits key cidr c n ≡ false
      → same_prefix bits c n cidr key ≡ false
  same_prefix-off cidr c n e = ground (arith, e)

  -- A node adds its own prefix to those of its two children, of which one at most has the key.
  pub exact-node :
      (cidr : ℕ) (q : Option ℕ) (c : ℕ) (n : Key) (z o : Trie)
      → IsTrie bits (node q c n z o)
      → exact bits key cidr (node q c n z o) ≡ (
          if same_prefix bits c n cidr key
          then q
          else or_else (exact bits key cidr z) (exact bits key cidr o))
  unfolding exact
  exact-node cidr q c n z o (le, fz, fo, wz, wo) =
      elim (Bool-cases (goes_below bits key cidr c n)) [
        | inr e ↦
            rw (child-none cidr c n false z le e fz wz) (
              rw (child-none cidr c n true o le e fo wo)
                (simp (e, same_prefix-off cidr c n e) refl))
        | inl e ↦ elim (Bool-cases (key c)) [
          | inl up ↦
              rw (exact-off cidr c n false z fz wz (λ h. not_both up h.1))
                (simp (e, up, same_prefix-cases cidr c n e) refl)
          | inr down ↦ rw (exact-off cidr c n true o fo wo (λ h. not_both h.1 down)) (
              rw (or_else-none (exact bits key cidr z))
                (simp (e, down, same_prefix-cases cidr c n e) refl))
        ]
      ]
