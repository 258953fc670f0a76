-- ===== src/AllowedIps/Place.antt =====
-- add where the walk stops: a new node above the one that is there, or a node above both. The whole of
-- node_placement and add.
use wireguard_receive_path.Prelude.{
  ℕ, ◌+◌, ◌≤◌, ◌<◌, ◌≡◌, min, Bool, true, false, ltb, ◌==◌, ◌||◌, not, if◌then◌else◌, Option, none,
  some, arith, refl, Bool-cases, inl, inr, sym, ◌∙◌, ==_iff, subst,
}
use wireguard_receive_path.AllowedIps.{
  Key, xor, Trie, nil, node, common_bits, goes_below, connect, split, place,
}
use wireguard_receive_path.AllowedIps.Bits.{
  Agrees, prefix_matches-Agrees, Agrees-prefix_matches, common_bits-le, common_bits-differ,
}
use wireguard_receive_path.AllowedIps.Shape.{
  Fits, IsTrie, exact, same_prefix, exact-nil, exact-short, same_prefix-Agrees,
}
use wireguard_receive_path.AllowedIps.Connect.{
  connect-IsTrie, exact-connect, connect_two-IsTrie, exact-connect_two, connect-Fits,
  connect_two-Fits, in_order, in_order-first, in_order-second,
}
use wireguard_receive_path.AllowedIps.Add.{
  Inserted, Placed, fresh-Inserted, replaced-Inserted, up-Inserted, down-Inserted, other_side,
  longer,
}

xor-differ : (a b : Bool) → xor a b ≡ true → ¬ (a ≡ b)
xor-differ true true h e = absurd (cc)
xor-differ true false h e = absurd (cc)
xor-differ false true h e = absurd (cc)
xor-differ false false h e = absurd (cc)

module _ (bits : ℕ) (key : Key) (cidr peer : ℕ) (short : cidr ≤ bits) where
  -- A node of the trie, and the address from it on.
  pub goes_on :
      (c : ℕ) (n : Key) → goes_below bits key cidr c n ≡ true → (c ≤ cidr) × Agrees c n key
  goes_on c n e = (
    ground (arith, e),
    prefix_matches-Agrees bits n key c (ground (arith, e, short)) (ground (arith, e)),
  )

  -- Two keys that agree on more bits.
  agree_more :
      (c : ℕ) (n : Key) → Agrees c n key → key c ≡ n c → c < cidr → c < common_bits bits n key
  agree_more c n same side lt = ground (
    arith,
    Agrees-prefix_matches bits n key (c + 1) (omega (arith, lt, short)) (λ i h.
        elim (Bool-cases (i == c)) [
          | inl e ↦ subst (λ j. n j ≡ key j) (sym ((==_iff i c).0 e)) (sym side)
          | inr e ↦ same i (ground (arith, e, h))
        ]),
  )

  module _ (q : Option ℕ) (c : ℕ) (n : Key) (z o : Trie) (w : IsTrie bits (node q c n z o))
      (stop : goes_below bits key cidr c n ≡ false) where
    -- The new prefix is above the node.
    above-Inserted :
        cidr ≤ common_bits bits n key
        → Inserted bits key cidr peer
            (node q c n z o)
            (connect (n cidr) (node q c n z o) (node (some peer) cidr key nil nil))
    above-Inserted le = (
      connect-IsTrie bits cidr key short (some peer) (n cidr) (node q c n z o) fits w,
      (λ k i. exact-connect bits cidr key short (some peer) (n cidr) (node q c n z o) k i fits w),
      (λ m k b f same side lt.
          connect-Fits bits cidr key short (some peer) (n cidr) b (node q c n z o) m k
            (lt, same, side)),
    )
      where
        agree : Agrees cidr n key
        agree = prefix_matches-Agrees bits n key cidr short (ground (arith, le))

        fits : Fits cidr key (n cidr) (node q c n z o)
        fits = (ground (arith, le, stop), (λ i h. sym (agree i h)), refl)

    -- A node without a peer is above both; `s` bits are common.
    glue-Inserted :
        (s : ℕ)
        → s < cidr
        → s < c
        → Agrees s n key
        → xor (n s) (key s) ≡ true
        → Inserted bits key cidr peer (node q c n z o) (
            connect
              (key s)
              (node (some peer) cidr key nil nil)
              (connect (n s) (node q c n z o) (node none s key nil nil)))
    glue-Inserted s lt lt' agree differ = (
      connect_two-IsTrie bits s key le none (key s) (n s) new down differ f f' wf w,
      (λ k i.
          exact-connect_two bits s key le none (key s) (n s) new down k i differ f f' wf w
          ∙ rw ((fresh-Inserted bits key cidr peer short).1 k i)
              (elim (Bool-cases (same_prefix bits cidr key i k)) [
                | inl e ↦
                    rw
                      (other_side bits key cidr peer short s key (n s) down k i f' w lt
                        (λ h. ground (arith, h, differ)) e)
                      (simp (e, longer bits key cidr peer short s key k i lt e)
                        (in_order-first (key s) (some peer)))
                | inr e ↦ rw (exact-nil bits k i) (simp (e) (old k i))
              ])),
      (λ m k b g same side more.
          connect_two-Fits bits s key le none (key s) (n s) b new down m k
            (below m k b g same side more, same, side)),
    )
      where
        new : Trie
        new = node (some peer) cidr key nil nil

        down : Trie
        down = node q c n z o

        le : s ≤ bits
        le = omega (arith, lt, short)

        wf : IsTrie bits new
        wf = (short, tt, tt, tt, tt)

        f : Fits s key (key s) new
        f = (lt, (λ i h. refl), refl)

        f' : Fits s key (n s) down
        f' = (lt', (λ i h. sym (agree i h)), refl)

        old :
            (k : Key) (i : ℕ)
            → (if same_prefix bits s key i k
                then none
                else in_order (key s) none (exact bits k i down))
              ≡ exact bits k i down
        old k i =
            rw (in_order-second (key s) (exact bits k i down))
              (elim (Bool-cases (same_prefix bits s key i k)) [
                | inr e ↦ simp (e) refl
                | inl e ↦ simp (e) (
                    sym (
                      exact-short bits k i s key (n s) down f'
                        (omega (arith, (same_prefix-Agrees bits s key i k le e).0))))
              ])

        below :
            (m : ℕ) (k : Key) (b : Bool)
            → Fits m k b down
            → Agrees m k key
            → key m ≡ b
            → m < cidr
            → m < s
        below m k b (lt, same', side') same side more = elim (Bool-cases (ltb m s)) [
          | inl e ↦ ground (arith, e)
          | inr e ↦ elim (Bool-cases (s == m)) [
            | inl here ↦ absurd (
                xor-differ (n s) (key s) differ
                  (subst (λ j. n j ≡ key j) (sym ((==_iff s m).0 here)) (side' ∙ sym side)))
            | inr there ↦ absurd (
                xor-differ (n s) (key s) differ
                  (sym (same' s (ground (arith, e, there))) ∙ same s (ground (arith, e, there))))
          ]
        ]

  split-Inserted :
      (q : Option ℕ) (c : ℕ) (n : Key) (z o : Trie)
      → IsTrie bits (node q c n z o)
      → goes_below bits key cidr c n ≡ false
      → Inserted bits key cidr peer (node q c n z o) (split bits key cidr peer n (node q c n z o))
  unfolding split
  split-Inserted q c n z o w stop = elim (Bool-cases (cidr == min cidr (common_bits bits n key))) [
    | inl e ↦ simp (e) (above-Inserted q c n z o w stop (ground (arith, e)))
    | inr e ↦
        let m : min cidr (common_bits bits n key) ≡ common_bits bits n key = ground (arith, e) in
        let lt : common_bits bits n key < cidr = ground (arith, e) in
        simp (e) (
          rw m (
            glue-Inserted q c n z o w stop (common_bits bits n key) lt (ground (arith, stop, lt))
              (prefix_matches-Agrees bits n key (common_bits bits n key) (common_bits-le bits n key)
                (ground arith))
              (common_bits-differ bits n key (omega (arith, lt, short)))))
  ]

  replaced :
      (q : Option ℕ) (c : ℕ) (n : Key) (z o : Trie)
      → cidr ≡ c
      → IsTrie bits (node q c n z o)
      → Agrees c n key
      → Inserted bits key cidr peer (node q c n z o) (node (some peer) c n z o)
  replaced q c n z o e =
      subst
        (λ x.
          IsTrie bits (node q x n z o)
          → Agrees x n key
          → Inserted bits key cidr peer (node q x n z o) (node (some peer) x n z o))
        e (replaced-Inserted bits key cidr peer short q n z o)

  pub place-Placed :
      (new above : Bool) (t : Trie)
      → IsTrie bits t
      → Placed bits key cidr peer t (place (new, above) bits key cidr peer t)
  unfolding place
  place-Placed true above nil w = fresh-Inserted bits key cidr peer short
  place-Placed false above nil w = tt
  place-Placed new above (node q c n z o) (le, fz, fo, wz, wo) =
      let up = place-Placed new above o wo in
      let down = place-Placed new above z wz in
      elim (Bool-cases (goes_below bits key cidr c n)) [
        | inr e ↦ simp (e) (stopped new above e)
        | inl e ↦ elim (Bool-cases (c == cidr)) [
          | inl here ↦
              simp (e, here)
                (replaced q c n z o (sym ((==_iff c cidr).0 here)) (le, fz, fo, wz, wo)
                  (goes_on c n e).1)
          | inr far ↦ elim (Bool-cases (key c)) [
            | inl side ↦
                simp (e, far, side)
                  (lift_up (place (new, above) bits key cidr peer o) (ground (arith, e, far))
                    (goes_on c n e).1 side up)
            | inr side ↦
                simp (e, far, side)
                  (lift_down (place (new, above) bits key cidr peer z) (ground (arith, e, far))
                    (goes_on c n e).1 side down)
          ]
        ]
      ]
    where
      stopped :
          (new above : Bool)
          → goes_below bits key cidr c n ≡ false
          → Placed bits key cidr peer (node q c n z o) (
              if not new
              then none
              else if cidr == min cidr (common_bits bits n key) || above
              then some (split bits key cidr peer n (node q c n z o))
              else none)
      stopped false above e = tt
      stopped true above e =
          elim (Bool-cases (cidr == min cidr (common_bits bits n key) || above)) [
            | inl ok ↦ simp (ok) (split-Inserted q c n z o (le, fz, fo, wz, wo) e)
            | inr bad ↦ simp (bad) tt
          ]

      lift_up :
          (r : Option Trie)
          → c < cidr
          → Agrees c n key
          → key c ≡ true
          → Placed bits key cidr peer o r
          → Placed bits key cidr peer
              (node q c n z o)
              (elim r [ none ↦ none | some o' ↦ some (node q c n z o') ])
      lift_up none lt same side h = tt
      lift_up (some o') lt same side h =
          up-Inserted bits key cidr peer short q c n z o o' (le, fz, fo, wz, wo) same lt side h

      lift_down :
          (r : Option Trie)
          → c < cidr
          → Agrees c n key
          → key c ≡ false
          → Placed bits key cidr peer z r
          → Placed bits key cidr peer
              (node q c n z o)
              (elim r [ none ↦ none | some z' ↦ some (node q c n z' o) ])
      lift_down none lt same side h = tt
      lift_down (some z') lt same side h =
          down-Inserted bits key cidr peer short q c n z o z' (le, fz, fo, wz, wo) same lt side h
