-- ===== src/Tables/Slots.antt =====
-- The search of wg_index_hashtable_insert for an index that is not in use.
use wireguard_receive_path.Prelude.{
  ℕ, ◌≡◌, true, ◌==◌, if◌then◌else◌, Option, none, some, List, [], ◌∷◌, refl, sym, ◌∙◌, arith,
  Bool-cases, Option-cases, inl, inr, ==_iff, subst,
}
use wireguard_receive_path.Tables.{
  IndexHashtable, is_entry_of, index_hashtable_remove, search_unused_slot, index_hashtable_insert,
}
use wireguard_receive_path.Tables.Refine.{
  find, IsTable, Entries, added, remove-Tracks, search_unused_slot-free, put-Tracks,
}
use wireguard_receive_path.Tables.Lookup.{insert-put, is_entry_of-removed}

search_unused_slot-ends :
    (draws : List ℕ) (t : IndexHashtable) (i : ℕ)
    → is_entry_of i draws ≡ true
    → find t i ≡ none
    → (j : ℕ) × search_unused_slot draws t ≡ some j
unfolding search_unused_slot
search_unused_slot-ends [] t i d free = absurd (cc)
search_unused_slot-ends (x ∷ draws) t i d free = elim (Option-cases (find t x)) [
  | inl unused ↦ (x, rw (unused, search_unused_slot) refl)
  | inr used ↦ elim (Bool-cases (x == i)) [
    | inl same ↦
        let here : find t x ≡ none =
          subst (λ y. find t y ≡ none) (sym ((==_iff x i).0 same)) free in
        absurd (cc)
    | inr other ↦
        let r = search_unused_slot-ends draws t i (ground (arith, d, other)) free in
        (r.0, rw (used.1, search_unused_slot) r.1)
  ]
]

added-free :
    (e i j : ℕ) (f : Entries) → f i ≡ none → added e i f j ≡ (if i == j then some e else f j)
added-free e i j f free = rw (free, added) refl

-- An insertion answers an index that was free when the entry was out of the table, and puts the entry
-- there, and no other index finds anything else.
abbrev pub IsInserted : (entry : ℕ) → IndexHashtable → Option ℕ × IndexHashtable → Type 0
IsInserted e removed r =
    (j : ℕ) × (r.0 ≡ some j)
    × (find removed j ≡ none)
    × ((k : ℕ) → find r.1 k ≡ (if j == k then some e else find removed k))

-- In a table whose entries are in the buckets of their indices, and where no two entries have one index:
-- if one of the indices drawn is not in use after the entry is taken out, then
-- wg_index_hashtable_insert ends and answers an index, not in use at that time, at which the entry is
-- found afterwards, while every other index finds what it found after the entry was taken out.
pub index_hashtable_insert-ends :
    (draws : List ℕ) (e i : ℕ) (t : IndexHashtable)
    → IsTable t
    → is_entry_of i draws ≡ true
    → find (index_hashtable_remove e t) i ≡ none
    → IsInserted e (index_hashtable_remove e t) (index_hashtable_insert draws e t)
index_hashtable_insert-ends draws e i t w d free =
    let removed = index_hashtable_remove e t in
    let s = search_unused_slot-ends draws removed i d free in
    let unused = search_unused_slot-free draws removed s.0 s.1 in
    let all = (remove-Tracks e t (find t) (w, (λ k. refl))).0 in
    let r =
      put-Tracks e s.0 removed (find removed) (is_entry_of-removed e t) unused (all, (λ k. refl)) in
    subst (IsInserted e removed) (sym (insert-put draws e t s.0 s.1))
      (s.0, refl, unused, (λ k. r.1 k ∙ added-free e s.0 k (find removed) unused))
