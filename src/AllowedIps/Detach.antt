-- ===== src/AllowedIps/Detach.antt =====
-- remove_node: a node that loses its peer, and a parent that goes with it.
use wireguard_receive_path.Prelude.{
  ℕ, ◌≤◌, ◌≡◌, Bool, true, false, ◌&&◌, if◌then◌else◌, Option, none, arith, refl, Bool-cases, inl,
  inr, sym, ◌∙◌, subst,
}
use wireguard_receive_path.AllowedIps.{Key, Trie, nil, node, take_out, is_peer}
use wireguard_receive_path.AllowedIps.Shape.{
  or_else-none, Fits, IsTrie, exact, same_prefix, exact-nil, exact-short, exact-node,
  same_prefix-Agrees,
}

-- `t'` stands for `t` with the peers `peers`.
abbrev pub Stands : (bits : ℕ) → (Key → ℕ → Option ℕ) → Trie → Trie → Type 0
Stands bits peers t t' =
    IsTrie bits t'
    × ((k : Key) (i : ℕ) → exact bits k i t' ≡ peers k i)
    × ((c : ℕ) (n : Key) (b : Bool) → Fits c n b t → Fits c n b t')

-- What is left of a function of prefixes without one.
abbrev pub without :
    (bits : ℕ) → Key → (cidr : ℕ) → (gone : Bool) → (Key → ℕ → Option ℕ) → Key → ℕ → Option ℕ
without bits key cidr gone f k i = if same_prefix bits cidr key i k && gone then none else f k i

-- What `t'` has to be, after `t`.
abbrev pub Removed : (bits : ℕ) → Key → (cidr peer : ℕ) → Trie → Trie → Type 0
Removed bits key cidr peer t t' =
    Stands bits
      (without bits key cidr (is_peer (exact bits key cidr t) peer) (λ k i. exact bits k i t)) t t'

module _ (bits : ℕ) where
  child-Fits :
      (q : Option ℕ) (c : ℕ) (n : Key) (z o : Trie) (b : Bool) (t : Trie)
      → Fits c n b t
      → (m : ℕ) (k : Key) (b' : Bool) → Fits m k b' (node q c n z o)
      → Fits m k b' t
  child-Fits q c n z o b nil f m k b' g = tt
  child-Fits q c n z o b (node q' c' n' z' o') (lt, same, side) m k b' (lt', same', side') = (
    omega (arith, lt, lt'),
    (λ i h. same' i h ∙ same i (omega (arith, h, lt'))),
    sym (same m lt') ∙ side',
  )

  -- A node that has no peer and one child has what the child has.
  lone-exact :
      (c : ℕ) (n : Key) (b : Bool) (t : Trie) (k : Key) (i : ℕ)
      → c ≤ bits
      → Fits c n b t
      → exact bits k i t ≡ (if same_prefix bits c n i k then none else exact bits k i t)
  lone-exact c n b t k i le f = elim (Bool-cases (same_prefix bits c n i k)) [
    | inr e ↦ simp (e) refl
    | inl e ↦
        simp (e)
          (exact-short bits k i c n b t f (omega (arith, (same_prefix-Agrees bits c n i k le e).0)))
  ]

  lone_zero :
      (c : ℕ) (n : Key) (z : Trie) (k : Key) (i : ℕ)
      → IsTrie bits (node none c n z nil)
      → exact bits k i z ≡ exact bits k i (node none c n z nil)
  lone_zero c n z k i (le, fz, fo, wz, wo) =
      rw (exact-node bits k i none c n z nil (le, fz, fo, wz, wo)) (
        rw (exact-nil bits k i)
          (rw (or_else-none (exact bits k i z)) (lone-exact c n false z k i le fz)))

  lone_one :
      (c : ℕ) (n : Key) (o : Trie) (k : Key) (i : ℕ)
      → IsTrie bits (node none c n nil o)
      → exact bits k i o ≡ exact bits k i (node none c n nil o)
  lone_one c n o k i (le, fz, fo, wz, wo) =
      rw (exact-node bits k i none c n nil o (le, fz, fo, wz, wo))
        (rw (exact-nil bits k i) (lone-exact c n true o k i le fo))

  -- A node without a peer that has lost a child stands for the other.
  pub lone-Stands_zero :
      (q : Option ℕ) (c : ℕ) (n : Key) (z o : Trie)
      → IsTrie bits (node q c n z o)
      → q ≡ none
      → o ≡ nil
      → Stands bits (λ k i. exact bits k i (node q c n z o)) (node q c n z o) z
  lone-Stands_zero q c n z o w p g =
      subst (λ x. Stands bits (λ k i. exact bits k i (node q c n z x)) (node q c n z x) z) (sym g)
        (subst (λ x. Stands bits (λ k i. exact bits k i (node x c n z nil)) (node x c n z nil) z)
          (sym p)
          (
            w.3,
            (λ k i. lone_zero c n z k i (w.0, w.1, tt, w.3, tt)),
            child-Fits none c n z nil false z w.1,
          ))

  pub lone-Stands_one :
      (q : Option ℕ) (c : ℕ) (n : Key) (z o : Trie)
      → IsTrie bits (node q c n z o)
      → q ≡ none
      → z ≡ nil
      → Stands bits (λ k i. exact bits k i (node q c n z o)) (node q c n z o) o
  lone-Stands_one q c n z o w p g =
      subst (λ x. Stands bits (λ k i. exact bits k i (node q c n x o)) (node q c n x o) o) (sym g)
        (subst (λ x. Stands bits (λ k i. exact bits k i (node x c n nil o)) (node x c n nil o) o)
          (sym p)
          (
            w.4,
            (λ k i. lone_one c n o k i (w.0, tt, w.2, tt, w.4)),
            child-Fits none c n nil o true o w.2,
          ))

  -- remove_node: the node loses its peer.
  pub take_out-Stands :
      (q : Option ℕ) (c : ℕ) (n : Key) (z o : Trie)
      → IsTrie bits (node q c n z o)
      → Stands bits (λ k i. exact bits k i (node none c n z o)) (node q c n z o) (take_out c n z o)
  take_out-Stands q c n nil o w =
      (w.4, (λ k i. lone_one c n o k i w), child-Fits q c n nil o true o w.2)
  take_out-Stands q c n (node q' c' n' z' o') nil w = (
    w.3,
    (λ k i. lone_zero c n (node q' c' n' z' o') k i w),
    child-Fits q c n (node q' c' n' z' o') nil false (node q' c' n' z' o') w.1,
  )
  take_out-Stands q c n (node q' c' n' z' o') (node q'' c'' n'' z'' o'') w =
      (w, (λ k i. refl), (λ m k b f. f))
