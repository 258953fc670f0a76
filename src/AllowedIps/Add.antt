-- ===== src/AllowedIps/Add.antt =====
-- add: the trie after it has the new prefix, and every other as before.
use wireguard_receive_path.Prelude.{
  ℕ, ◌≤◌, ◌<◌, ◌≡◌, Bool, true, false, if◌then◌else◌, ◌≢◌, Option, none, some, arith, refl,
  Bool-cases, inl, inr, ◌∙◌,
}
use wireguard_receive_path.AllowedIps.{Key, Trie, nil, node}
use wireguard_receive_path.AllowedIps.Bits.{Agrees}
use wireguard_receive_path.AllowedIps.Shape.{
  not_both, or_else, Fits, IsTrie, exact, same_prefix, exact-nil, exact-off, exact-node,
  same_prefix-Agrees, same_prefix-longer, same_prefix-agreeing,
}

-- What `t'` has to be, after `t`, with `peer` for the prefix `cidr` of `key`.
abbrev pub Inserted : (bits : ℕ) → Key → (cidr peer : ℕ) → Trie → Trie → Type 0
Inserted bits key cidr peer t t' =
    IsTrie bits t'
    × ((k : Key) (i : ℕ)
        → exact bits k i t'
          ≡ (if same_prefix bits cidr key i k then some peer else exact bits k i t))
    × ((c : ℕ) (n : Key) (b : Bool)
        → Fits c n b t
        → Agrees c n key
        → key c ≡ b
        → c < cidr
        → Fits c n b t')

abbrev pub Placed : (bits : ℕ) → Key → (cidr peer : ℕ) → Trie → Option Trie → Type 0
Placed bits key cidr peer t none = Unit
Placed bits key cidr peer t (some t') = Inserted bits key cidr peer t t'

module _ (bits : ℕ) (key : Key) (cidr peer : ℕ) (short : cidr ≤ bits) where
  pub fresh-Inserted : Inserted bits key cidr peer nil (node (some peer) cidr key nil nil)
  fresh-Inserted = (
    wf,
    (λ k i. exact-node bits k i (some peer) cidr key nil nil wf ∙ rw (exact-nil bits k i) refl),
    (λ c n b fits same side lt. (lt, same, side)),
  )
    where
      wf : IsTrie bits (node (some peer) cidr key nil nil)
      wf = (short, tt, tt, tt, tt)

  twice :
      (q : Option ℕ) (s : Bool) (rest : Option ℕ)
      → (if s then some peer else rest) ≡ (if s then some peer else (if s then q else rest))
  twice q true rest = refl
  twice q false rest = refl

  -- A key of the new prefix finds nothing on the other side.
  pub other_side :
      (c : ℕ) (n : Key) (b : Bool) (t : Trie) (k : Key) (i : ℕ)
      → Fits c n b t
      → IsTrie bits t
      → c < cidr
      → key c ≢ b
      → same_prefix bits cidr key i k ≡ true
      → exact bits k i t ≡ none
  other_side c n b t k i fits w lt off s =
      exact-off bits k i c n b t fits w
        (λ h. off ((same_prefix-Agrees bits cidr key i k short s).1 c lt ∙ h.1))

  -- The node is there already, for this prefix.
  pub replaced-Inserted :
      (q : Option ℕ) (n : Key) (z o : Trie)
      → IsTrie bits (node q cidr n z o)
      → Agrees cidr n key
      → Inserted bits key cidr peer (node q cidr n z o) (node (some peer) cidr n z o)
  replaced-Inserted q n z o w same = (
    w,
    (λ k i.
        exact-node bits k i (some peer) cidr n z o w
        ∙ rw (exact-node bits k i q cidr n z o w) (
            rw (same_prefix-agreeing bits cidr n key i k short same) (
              twice q (same_prefix bits cidr key i k)
                (or_else (exact bits k i z) (exact bits k i o))))),
    (λ c n b fits same' side lt. fits),
  )

  pub longer :
      (c : ℕ) (n : Key) (k : Key) (i : ℕ)
      → c < cidr
      → same_prefix bits cidr key i k ≡ true
      → same_prefix bits c n i k ≡ false
  longer c n k i lt s =
      same_prefix-longer bits c n i k
        (omega (arith, (same_prefix-Agrees bits cidr key i k short s).0))

  -- The walk goes on in the child on the key's side.
  pub up-Inserted :
      (q : Option ℕ) (c : ℕ) (n : Key) (z o o' : Trie)
      → IsTrie bits (node q c n z o)
      → Agrees c n key
      → c < cidr
      → key c ≡ true
      → Inserted bits key cidr peer o o'
      → Inserted bits key cidr peer (node q c n z o) (node q c n z o')
  up-Inserted q c n z o o' (le, fz, fo, wz, wo) same lt side (wo', eq, fits) = (
    wf,
    (λ k i.
        exact-node bits k i q c n z o' wf
        ∙ rw (exact-node bits k i q c n z o (le, fz, fo, wz, wo))
            (elim (Bool-cases (same_prefix bits cidr key i k)) [
              | inr e ↦ rw (eq k i) (simp (e) refl)
              | inl e ↦ rw (eq k i) (
                  rw (other_side c n false z k i fz wz lt (λ h. not_both side h) e)
                    (simp (e, longer c n k i lt e) refl))
            ])),
    (λ c n b f same' side lt. f),
  )
    where
      wf : IsTrie bits (node q c n z o')
      wf = (le, fz, fits c n true fo same side lt, wz, wo')

  pub down-Inserted :
      (q : Option ℕ) (c : ℕ) (n : Key) (z o z' : Trie)
      → IsTrie bits (node q c n z o)
      → Agrees c n key
      → c < cidr
      → key c ≡ false
      → Inserted bits key cidr peer z z'
      → Inserted bits key cidr peer (node q c n z o) (node q c n z' o)
  down-Inserted q c n z o z' (le, fz, fo, wz, wo) same lt side (wz', eq, fits) = (
    wf,
    (λ k i.
        exact-node bits k i q c n z' o wf
        ∙ rw (exact-node bits k i q c n z o (le, fz, fo, wz, wo))
            (elim (Bool-cases (same_prefix bits cidr key i k)) [
              | inr e ↦ rw (eq k i) (simp (e) refl)
              | inl e ↦ rw (eq k i) (simp (e, longer c n k i lt e) refl)
            ])),
    (λ c n b f same' side lt. f),
  )
    where
      wf : IsTrie bits (node q c n z' o)
      wf = (le, fits c n false fz same side lt, fo, wz', wo)
