-- ===== src/AllowedIps/Remove.antt =====
-- remove: the trie after it has lost the prefix, and has every other as before.
use wireguard_receive_path.Prelude.{
  ℕ, ◌≤◌, ◌<◌, ◌≡◌, Bool, true, false, ◌==◌, ◌&&◌, if◌then◌else◌, Option, none, some, arith, refl,
  Bool-cases, inl, inr, sym, ap, ◌∙◌, ==_iff, subst,
}
use wireguard_receive_path.AllowedIps.{
  Key, Trie, nil, node, goes_below, take_out, is_leaf_at, without_leaf, is_peer, take_from,
}
use wireguard_receive_path.AllowedIps.Shape.{
  not_both, or_else, or_else-none, IsTrie, exact, same_prefix, exact-nil, exact-stop, exact-here,
  exact-below, exact-node, same_prefix-agreeing,
}
use wireguard_receive_path.AllowedIps.Add.{other_side, longer}
use wireguard_receive_path.AllowedIps.Place.{goes_on}
use wireguard_receive_path.AllowedIps.Detach.{
  Stands, Removed, lone-Stands_zero, lone-Stands_one, take_out-Stands,
}

module _ (bits : ℕ) (key : Key) (cidr peer : ℕ) (short : cidr ≤ bits) where
  and-false : (a : Bool) → (a && false) ≡ false
  and-false true = refl
  and-false false = refl

  unchanged-Removed :
      (t : Trie)
      → IsTrie bits t
      → is_peer (exact bits key cidr t) peer ≡ false
      → Removed bits key cidr peer t t
  unchanged-Removed t w e =
      (w, (λ k i. simp (e, and-false (same_prefix bits cidr key i k)) refl), (λ m k b f. f))

  -- A leaf that is removed is gone.
  leaf-nil :
      (t : Trie) → is_leaf_at bits key cidr peer t ≡ true → take_from bits key cidr peer t ≡ nil
  unfolding take_from
  leaf-nil nil e = refl
  leaf-nil (node none c n z o) e = absurd (cc)
  leaf-nil (node (some q) c n nil nil) e = ground (arith, e)
  leaf-nil (node (some q) c n (node q' c' n' z' o') o) e = absurd (cc)
  leaf-nil (node (some q) c n nil (node q' c' n' z' o')) e = absurd (cc)

  ends :
      (q : Option ℕ) (s : Bool) (rest : Option ℕ)
      → (if s then none else rest) ≡ (if s && true then none else (if s then q else rest))
  ends q true rest = refl
  ends q false rest = refl

  here-Removed :
      (q : Option ℕ) (n : Key) (z o : Trie)
      → IsTrie bits (node q cidr n z o)
      → goes_below bits key cidr cidr n ≡ true
      → is_peer q peer ≡ true
      → Removed bits key cidr peer (node q cidr n z o) (take_out cidr n z o)
  here-Removed q n z o w e found =
      let out = take_out-Stands bits q cidr n z o w in
      (
        out.0,
        (λ k i.
            out.1 k i
            ∙ rw (exact-node bits k i none cidr n z o w) (
                rw (exact-node bits k i q cidr n z o w) (
                  rw (exact-here bits key q cidr n z o (ground (arith, e))) (
                    rw
                      (same_prefix-agreeing bits cidr n key i k short
                        (goes_on bits key cidr peer short cidr n e).1)
                      (simp (found) (
                        ends q (same_prefix bits cidr key i k)
                          (or_else (exact bits k i z) (exact bits k i o)))))))),
        out.2,
      )

  up-Removed :
      (q : Option ℕ) (c : ℕ) (n : Key) (z o o' : Trie)
      → IsTrie bits (node q c n z o)
      → goes_below bits key cidr c n ≡ true
      → c < cidr
      → key c ≡ true
      → Removed bits key cidr peer o o'
      → Removed bits key cidr peer (node q c n z o) (node q c n z o')
  up-Removed q c n z o o' (le, fz, fo, wz, wo) e lt side (w', eq, fits) = (
    wf,
    (λ k i.
        exact-node bits k i q c n z o' wf
        ∙ rw (exact-node bits k i q c n z o (le, fz, fo, wz, wo)) (
            rw (exact-below bits key cidr q c n z o (ground (arith, e)) lt)
              (elim (Bool-cases (same_prefix bits cidr key i k)) [
                | inr off ↦ rw (eq k i) (simp (off) refl)
                | inl on ↦ rw (eq k i) (
                    rw
                      (other_side bits key cidr peer short c n false z k i fz wz lt
                        (λ h. not_both side h) on)
                      (simp (on, side, longer bits key cidr peer short c n k i lt on) refl))
              ]))),
    (λ m k b f. f),
  )
    where
      wf : IsTrie bits (node q c n z o')
      wf = (le, fz, fits c n true fo, wz, w')

  down-Removed :
      (q : Option ℕ) (c : ℕ) (n : Key) (z o z' : Trie)
      → IsTrie bits (node q c n z o)
      → goes_below bits key cidr c n ≡ true
      → c < cidr
      → key c ≡ false
      → Removed bits key cidr peer z z'
      → Removed bits key cidr peer (node q c n z o) (node q c n z' o)
  down-Removed q c n z o z' (le, fz, fo, wz, wo) e lt side (w', eq, fits) = (
    wf,
    (λ k i.
        exact-node bits k i q c n z' o wf
        ∙ rw (exact-node bits k i q c n z o (le, fz, fo, wz, wo)) (
            rw (exact-below bits key cidr q c n z o (ground (arith, e)) lt)
              (elim (Bool-cases (same_prefix bits cidr key i k)) [
                | inr off ↦ rw (eq k i) (simp (off) refl)
                | inl on ↦ rw (eq k i) (
                    rw
                      (other_side bits key cidr peer short c n true o k i fo wo lt
                        (λ h. not_both h side) on)
                      (simp (on, side, longer bits key cidr peer short c n k i lt on)
                        (or_else-none _
                          ∙ ap (λ x. if is_peer (exact bits key cidr z) peer then none else x)
                              (sym (or_else-none (exact bits k i z))))))
              ]))),
    (λ m k b f. f),
  )
    where
      wf : IsTrie bits (node q c n z' o)
      wf = (le, fits c n false fz, fo, w', wo)

  -- The parent that has no peer of its own goes with the leaf.
  without_leaf-Removed :
      (q : Option ℕ) (c : ℕ) (n : Key) (gone : Bool) (kept other before : Trie)
      → ((q ≡ none) → (gone ≡ true) → Stands bits (λ k i. exact bits k i kept) kept other)
      → Removed bits key cidr peer before kept
      → Removed bits key cidr peer before (without_leaf q c n gone kept other)
  without_leaf-Removed (some p) c n gone kept other before h r = r
  without_leaf-Removed none c n false kept other before h r = r
  without_leaf-Removed none c n true kept other before h (w, eq, fits) =
      let s = h refl refl in (s.0, (λ k i. s.1 k i ∙ eq k i), (λ m k b f. s.2 m k b (fits m k b f)))

  at_node :
      (q : Option ℕ) (c : ℕ) (n : Key) (z o : Trie)
      → c ≡ cidr
      → IsTrie bits (node q c n z o)
      → goes_below bits key cidr c n ≡ true
      → Removed bits key cidr peer
          (node q c n z o)
          (if is_peer q peer then take_out c n z o else node q c n z o)
  at_node q c n z o e =
      subst
        (λ x.
          IsTrie bits (node q x n z o)
          → goes_below bits key cidr x n ≡ true
          → Removed bits key cidr peer (node q x n z o)
              (if is_peer q peer then take_out x n z o else node q x n z o))
        (sym e)
        (λ w below. elim (Bool-cases (is_peer q peer)) [
          | inl found ↦ simp (found) (here-Removed q n z o w below found)
          | inr other ↦ simp (other) (
              unchanged-Removed (node q cidr n z o) w
                (rw (exact-here bits key q cidr n z o (ground (arith, below))) other))
        ])

  pub take_from-Removed :
      (t : Trie) → IsTrie bits t → Removed bits key cidr peer t (take_from bits key cidr peer t)
  unfolding take_from
  take_from-Removed nil w = unchanged-Removed nil w (rw (exact-nil bits key cidr) refl)
  take_from-Removed (node q c n z o) (le, fz, fo, wz, wo) =
      let up = take_from-Removed o wo in
      let down = take_from-Removed z wz in
      elim (Bool-cases (goes_below bits key cidr c n)) [
        | inr e ↦ simp (e) (
            unchanged-Removed (node q c n z o) (le, fz, fo, wz, wo)
              (rw (exact-stop bits key cidr q c n z o e) refl))
        | inl e ↦ elim (Bool-cases (c == cidr)) [
          | inl at ↦ simp (e, at) (at_node q c n z o ((==_iff c cidr).0 at) (le, fz, fo, wz, wo) e)
          | inr far ↦ elim (Bool-cases (key c)) [
            | inl side ↦
                let removed =
                  up-Removed q c n z o (take_from bits key cidr peer o) (le, fz, fo, wz, wo) e
                    (ground (arith, e, far)) side up in
                simp (e, far, side)
                  (without_leaf-Removed q c n (is_leaf_at bits key cidr peer o)
                    (node q c n z (take_from bits key cidr peer o)) z (node q c n z o)
                    (λ p g.
                      lone-Stands_zero bits q c n z (take_from bits key cidr peer o) removed.0 p
                        (leaf-nil o g))
                    removed)
            | inr side ↦
                let removed =
                  down-Removed q c n z o (take_from bits key cidr peer z) (le, fz, fo, wz, wo) e
                    (ground (arith, e, far)) side down in
                simp (e, far, side)
                  (without_leaf-Removed q c n (is_leaf_at bits key cidr peer z)
                    (node q c n (take_from bits key cidr peer z) o) o (node q c n z o)
                    (λ p g.
                      lone-Stands_one bits q c n (take_from bits key cidr peer z) o removed.0 p
                        (leaf-nil z g))
                    removed)
          ]
        ]
      ]
