-- ===== src/Tables/Keys.antt =====
-- The hashtable of public keys: a peer that is added is found by its key, until it is removed.
use wireguard_receive_path.Prelude.{
  ℕ, ◌≡◌, Bool, true, false, ◌==◌, if◌then◌else◌, Option, none, some, List, [], ◌∷◌, Bytes,
  same_bytes, update, update_self, update_each, refl, sym, ap, ◌∙◌, arith, Bool-cases, inl, inr,
}
use wireguard_receive_path.Tables.{
  without_entry, is_entry_of, PubkeyHashtable, pubkey_bucket, pubkey_hashtable_add,
  pubkey_hashtable_remove, peer_of, pubkey_hashtable_lookup,
}

same_bytes_eq : (xs ys : Bytes) → same_bytes xs ys ≡ true → xs ≡ ys
unfolding same_bytes
same_bytes_eq [] [] h = refl
same_bytes_eq [] (y ∷ ys) h = absurd (cc)
same_bytes_eq (x ∷ xs) [] h = absurd (cc)
same_bytes_eq (x ∷ xs) (y ∷ ys) h =
    let head : x ≡ y = ground (arith, h) in let tail = same_bytes_eq xs ys (ground (arith, h)) in cc

without_entry_absent : (e : ℕ) (l : List ℕ) → is_entry_of e l ≡ false → without_entry e l ≡ l
without_entry_absent e [] h = refl
without_entry_absent e (x ∷ xs) h =
    let other : (x == e) ≡ false = ground (arith, h) in
    let rest = without_entry_absent e xs (ground (arith, h)) in simp (other, rest) refl

abbrev pub if_live : (ℕ → Bool) → Option ℕ → Option ℕ
if_live is_live none = none
if_live is_live (some p) = if is_live p then some p else none

module _ (hash : Bytes → ℕ) (remote_static : ℕ → Bytes) (is_live : ℕ → Bool) where
  lookup-peer_of :
      (key : Bytes) (t : PubkeyHashtable)
      → pubkey_hashtable_lookup hash remote_static is_live key t
        ≡ if_live is_live (peer_of remote_static key (t (pubkey_bucket hash key)))
  unfolding pubkey_hashtable_lookup
  lookup-peer_of key t = go (peer_of remote_static key (t (pubkey_bucket hash key)))
    where
      go :
          (o : Option ℕ)
          → elim o [ none ↦ none | some p ↦ if is_live p then some p else none ] ≡ if_live is_live o
      go none = refl
      go (some p) = refl

  add-peer_of :
      (p : ℕ) (key : Bytes) (t : PubkeyHashtable)
      → peer_of remote_static key
          (pubkey_hashtable_add hash remote_static p t (pubkey_bucket hash key))
        ≡ (if same_bytes key (remote_static p)
            then some p
            else peer_of remote_static key (t (pubkey_bucket hash key)))
  unfolding pubkey_hashtable_add
  add-peer_of p key t = elim (Bool-cases (same_bytes key (remote_static p))) [
    | inl same ↦
        let here = ap (pubkey_bucket hash) (same_bytes_eq key (remote_static p) same) in
        rw (same) (
          ap
            (λ b. peer_of remote_static key (
              update t (pubkey_bucket hash (remote_static p))
                (p ∷ t (pubkey_bucket hash (remote_static p))) b))
            here
          ∙ ap (peer_of remote_static key) (
              update_self t (pubkey_bucket hash (remote_static p))
                (p ∷ t (pubkey_bucket hash (remote_static p))))
          ∙ simp (same) refl)
    | inr other ↦ rw (other) (
        update_each (λ b l. peer_of remote_static key l ≡ peer_of remote_static key (t b)) t
          (pubkey_bucket hash (remote_static p)) (p ∷ t (pubkey_bucket hash (remote_static p)))
          (simp (other) refl) (λ b. refl) (pubkey_bucket hash key))
  ]

  remove-add :
      (p : ℕ) (t : PubkeyHashtable)
      → ((b : ℕ) → is_entry_of p (t b) ≡ false)
      → (b : ℕ) → pubkey_hashtable_remove p (pubkey_hashtable_add hash remote_static p t) b ≡ t b
  unfolding pubkey_hashtable_add pubkey_hashtable_remove
  remove-add p t out =
      let self : (p == p) ≡ true = ground arith in
      update_each (λ b l. without_entry p l ≡ t b) t (pubkey_bucket hash (remote_static p))
        (p ∷ t (pubkey_bucket hash (remote_static p)))
        (simp (self) (
          without_entry_absent p (t (pubkey_bucket hash (remote_static p)))
            (out (pubkey_bucket hash (remote_static p)))))
        (λ b. without_entry_absent p (t b) (out b))

  -- Take a peer that is not in the table. Once it is added, a lookup of its key returns it if it can be
  -- referred to and otherwise nothing, and a lookup of any other key returns what it did before. When it
  -- is removed again, a lookup of any key returns what it did before the peer was added.
  pub pubkey_hashtable_add-lookup :
      (p : ℕ) (key : Bytes) (t : PubkeyHashtable)
      → ((b : ℕ) → is_entry_of p (t b) ≡ false)
      → (pubkey_hashtable_lookup hash remote_static is_live key
            (pubkey_hashtable_add hash remote_static p t)
          ≡ (if same_bytes key (remote_static p)
              then if_live is_live (some p)
              else pubkey_hashtable_lookup hash remote_static is_live key t))
        × (pubkey_hashtable_lookup hash remote_static is_live key
              (pubkey_hashtable_remove p (pubkey_hashtable_add hash remote_static p t))
            ≡ pubkey_hashtable_lookup hash remote_static is_live key t)
  pubkey_hashtable_add-lookup p key t out = (
    lookup-peer_of key (pubkey_hashtable_add hash remote_static p t)
        ∙ ap (if_live is_live) (add-peer_of p key t)
        ∙ found
        ∙ ap (λ o. if same_bytes key (remote_static p) then if_live is_live (some p) else o)
            (sym (lookup-peer_of key t)),
    lookup-peer_of key (pubkey_hashtable_remove p (pubkey_hashtable_add hash remote_static p t))
        ∙ ap (λ l. if_live is_live (peer_of remote_static key l))
            (remove-add p t out (pubkey_bucket hash key))
        ∙ sym (lookup-peer_of key t),
  )
    where
      found :
          if_live is_live (
            if same_bytes key (remote_static p)
            then some p
            else peer_of remote_static key (t (pubkey_bucket hash key)))
          ≡ (if same_bytes key (remote_static p)
              then if_live is_live (some p)
              else if_live is_live (peer_of remote_static key (t (pubkey_bucket hash key))))
      found = elim (Bool-cases (same_bytes key (remote_static p))) [
        | inl e ↦ rw (e) refl
        | inr e ↦ rw (e) refl
      ]
