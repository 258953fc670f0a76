-- ===== src/AllowedIps/Connect.antt =====
-- A node with the one child, or the two, that choose_and_connect_node gives it.
use wireguard_receive_path.Prelude.{
  ℕ, ◌≤◌, ◌<◌, ◌≡◌, Bool, true, false, if◌then◌else◌, Option, none, refl, ◌∙◌,
}
use wireguard_receive_path.AllowedIps.{Key, xor, Trie, nil, node, connect}
use wireguard_receive_path.AllowedIps.Bits.{Agrees}
use wireguard_receive_path.AllowedIps.Shape.{
  or_else, or_else-none, Fits, IsTrie, exact, same_prefix, exact-nil, exact-node,
}

-- The peers of two children, of which the first is on the side `a`.
abbrev pub in_order : Bool → Option ℕ → Option ℕ → Option ℕ
in_order true x y = or_else y x
in_order false x y = or_else x y

pub in_order-first : (a : Bool) (x : Option ℕ) → in_order a x none ≡ x
in_order-first true x = refl
in_order-first false x = or_else-none x

pub in_order-second : (a : Bool) (y : Option ℕ) → in_order a none y ≡ y
in_order-second true y = or_else-none y
in_order-second false y = refl

module _ (bits c : ℕ) (n : Key) (le : c ≤ bits) where
  -- What choose_and_connect_node makes: one child, or two on different sides.
  pub connect-IsTrie :
      (q : Option ℕ) (b : Bool) (t : Trie)
      → Fits c n b t
      → IsTrie bits t
      → IsTrie bits (connect b t (node q c n nil nil))
  connect-IsTrie q true t f w = (le, tt, f, tt, w)
  connect-IsTrie q false t f w = (le, f, tt, w, tt)

  pub exact-connect :
      (q : Option ℕ) (b : Bool) (t : Trie) (k : Key) (i : ℕ)
      → Fits c n b t
      → IsTrie bits t
      → exact bits k i (connect b t (node q c n nil nil))
        ≡ (if same_prefix bits c n i k then q else exact bits k i t)
  unfolding exact
  exact-connect q true t k i f w = exact-node bits k i q c n nil t (le, tt, f, tt, w)
  exact-connect q false t k i f w =
      exact-node bits k i q c n t nil (le, f, tt, w, tt)
      ∙ rw (exact-nil bits k i) (rw (or_else-none (exact bits k i t)) refl)

  pub connect_two-IsTrie :
      (q : Option ℕ) (a b : Bool) (x y : Trie)
      → xor b a ≡ true
      → Fits c n a x
      → Fits c n b y
      → IsTrie bits x
      → IsTrie bits y
      → IsTrie bits (connect a x (connect b y (node q c n nil nil)))
  connect_two-IsTrie q true false x y h fx fy wx wy = (le, fy, fx, wy, wx)
  connect_two-IsTrie q false true x y h fx fy wx wy = (le, fx, fy, wx, wy)
  connect_two-IsTrie q true true x y h fx fy wx wy = absurd (cc)
  connect_two-IsTrie q false false x y h fx fy wx wy = absurd (cc)

  pub exact-connect_two :
      (q : Option ℕ) (a b : Bool) (x y : Trie) (k : Key) (i : ℕ)
      → xor b a ≡ true
      → Fits c n a x
      → Fits c n b y
      → IsTrie bits x
      → IsTrie bits y
      → exact bits k i (connect a x (connect b y (node q c n nil nil)))
        ≡ (if same_prefix bits c n i k then q else in_order a (exact bits k i x) (exact bits k i y))
  exact-connect_two q true false x y k i h fx fy wx wy =
      exact-node bits k i q c n y x (le, fy, fx, wy, wx)
  exact-connect_two q false true x y k i h fx fy wx wy =
      exact-node bits k i q c n x y (le, fx, fy, wx, wy)
  exact-connect_two q true true x y k i h fx fy wx wy = absurd (cc)
  exact-connect_two q false false x y k i h fx fy wx wy = absurd (cc)

  pub connect-Fits :
      (q : Option ℕ) (b b' : Bool) (t : Trie) (m : ℕ) (k : Key)
      → (m < c) × Agrees m k n × (n m ≡ b')
      → Fits m k b' (connect b t (node q c n nil nil))
  connect-Fits q true b' t m k f = f
  connect-Fits q false b' t m k f = f

  pub connect_two-Fits :
      (q : Option ℕ) (a b b' : Bool) (x y : Trie) (m : ℕ) (k : Key)
      → (m < c) × Agrees m k n × (n m ≡ b')
      → Fits m k b' (connect a x (connect b y (node q c n nil nil)))
  connect_two-Fits q true true b' x y m k f = f
  connect_two-Fits q true false b' x y m k f = f
  connect_two-Fits q false true b' x y m k f = f
  connect_two-Fits q false false b' x y m k f = f
