-- ===== src/Tables/Lookup.antt =====
-- Any calls of the index hashtable, and the lookups after them.
use wireguard_receive_path.Prelude.{
  ℕ, ◌≡◌, Bool, true, false, ◌==◌, ◌&&◌, if◌then◌else◌, Option, none, some, List, [], ◌∷◌, update,
  update_self, update_ne, update_each, refl, sym, ap, ◌∙◌, Bool-cases, Option-cases, inl, inr,
  ==_iff, subst,
}
use wireguard_receive_path.Tables.{
  EntryType, Mask, is_in, IndexHashtable, index_bucket, index_hashtable_alloc, is_entry_of,
  entry_at, index_hashtable_remove, search_unused_slot, index_hashtable_insert, replaced,
  index_hashtable_replace, index_hashtable_lookup,
}
use wireguard_receive_path.Tables.Buckets.{
  IsBucket, swap, is_entry_of-without_entry, entry_at-update, update-IsBucket, entry_at-found,
  entry_at-replaced, replaced-IsBucket,
}
use wireguard_receive_path.Tables.Refine.{
  find, Entries, Tracks, Call, insert, replace, remove, run_call, apply, run_calls, apply_all,
  IsProper, remove-Tracks, search_unused_slot-free, put, put-Tracks,
}

insert-full :
    (draws : List ℕ) (e : ℕ) (t : IndexHashtable)
    → search_unused_slot draws (index_hashtable_remove e t) ≡ none
    → index_hashtable_insert draws e t ≡ (none, index_hashtable_remove e t)
unfolding index_hashtable_insert
insert-full draws e t h = rw (h, index_hashtable_insert) refl

pub insert-put :
    (draws : List ℕ) (e : ℕ) (t : IndexHashtable) (i : ℕ)
    → search_unused_slot draws (index_hashtable_remove e t) ≡ some i
    → index_hashtable_insert draws e t ≡ (some i, put e i (index_hashtable_remove e t))
unfolding index_hashtable_insert
insert-put draws e t i h = rw (h, index_hashtable_insert) refl

pub is_entry_of-removed :
    (e : ℕ) (t : IndexHashtable) (b : ℕ)
    → is_entry_of e ((index_hashtable_remove e t).buckets b) ≡ false
unfolding index_hashtable_remove
is_entry_of-removed e t b = is_entry_of-without_entry e (t.buckets b)

insert-Tracks :
    (draws : List ℕ) (e : ℕ) (t : IndexHashtable) (f : Entries)
    → Tracks t f
    → Tracks
        (index_hashtable_insert draws e t).1
        (apply (insert draws e) (index_hashtable_insert draws e t).0 f)
insert-Tracks draws e t f w =
    let follows : Option ℕ × IndexHashtable → Type 0 =
      λ r. Tracks r.1 (apply (insert draws e) r.0 f) in
    elim (Option-cases (search_unused_slot draws (index_hashtable_remove e t))) [
      | inl full ↦ subst follows (sym (insert-full draws e t full)) (remove-Tracks e t f w)
      | inr s ↦ subst follows (sym (insert-put draws e t s.0 s.1)) (
          put-Tracks e s.0 (index_hashtable_remove e t) _ (is_entry_of-removed e t)
            (search_unused_slot-free draws (index_hashtable_remove e t) s.0 s.1)
            (remove-Tracks e t f w))
    ]

-- Nothing changes when what was found is not the old entry.
unswapped : (old new : ℕ) (o : Option ℕ) → (o ≡ some old → ⊥) → swap old new o ≡ o
unswapped old new none h = refl
unswapped old new (some x) h = elim (Bool-cases (x == old)) [
  | inl e ↦ absurd (h (ap some ((==_iff x old).0 e)))
  | inr e ↦ simp (e) refl
]

abbrev placed : (old new : ℕ) → IndexHashtable → IndexHashtable
placed old new t = record {
  buckets =
      update t.buckets (index_bucket (t.index old))
        (replaced old new (t.buckets (index_bucket (t.index old))));
  index = update t.index new (t.index old);
}

replace-placed :
    (old new : ℕ) (t : IndexHashtable)
    → is_entry_of old (t.buckets (index_bucket (t.index old))) ≡ true
    → (index_hashtable_replace old new t).1 ≡ placed old new t
unfolding index_hashtable_replace
replace-placed old new t h = rw (h, index_hashtable_replace) refl

replace-absent :
    (old new : ℕ) (t : IndexHashtable)
    → is_entry_of old (t.buckets (index_bucket (t.index old))) ≡ false
    → (index_hashtable_replace old new t).1 ≡ t
unfolding index_hashtable_replace
replace-absent old new t h = rw (h, index_hashtable_replace) refl

-- An entry that is found at an index is in the bucket of its own index.
find-old :
    (t : IndexHashtable) (i old : ℕ)
    → find t i ≡ some old
    → is_entry_of old (t.buckets (index_bucket (t.index old))) ≡ true
find-old t i old h =
    let r = entry_at-found t.index i old (t.buckets (index_bucket i)) h in
    subst (λ j. is_entry_of old (t.buckets (index_bucket j)) ≡ true) (sym r.1) r.0

module _ (old new : ℕ) (t : IndexHashtable)
    (out : (b : ℕ) → is_entry_of new (t.buckets b) ≡ false) where
  find-placed : (j : ℕ) → find (placed old new t) j ≡ swap old new (find t j)
  find-placed j = elim (Bool-cases (index_bucket (t.index old) == index_bucket j)) [
    | inl same ↦
        subst
          (λ b.
            entry_at (update t.index new (t.index old)) j (
              update t.buckets (index_bucket (t.index old))
                (replaced old new (t.buckets (index_bucket (t.index old)))) b)
            ≡ swap old new (entry_at t.index j (t.buckets b)))
          ((==_iff (index_bucket (t.index old)) (index_bucket j)).0 same)
          (ap (entry_at (update t.index new (t.index old)) j) (
              update_self t.buckets (index_bucket (t.index old))
                (replaced old new (t.buckets (index_bucket (t.index old)))))
            ∙ entry_at-replaced t.index old new j (t.buckets (index_bucket (t.index old)))
                (out (index_bucket (t.index old))))
    | inr other ↦
        ap (entry_at (update t.index new (t.index old)) j) (
          update_ne t.buckets (index_bucket (t.index old))
            (replaced old new (t.buckets (index_bucket (t.index old)))) (index_bucket j) other)
        ∙ entry_at-update t.index new (t.index old) j (t.buckets (index_bucket j))
            (out (index_bucket j))
        ∙ sym (
            unswapped old new (find t j) (λ found.
              let here = (entry_at-found t.index j old (t.buckets (index_bucket j)) found).1 in
              let same =
                (==_iff (index_bucket (t.index old)) (index_bucket j)).1 (ap index_bucket here) in
              absurd (cc)))
  ]

  replace-Tracks :
      (f : Entries)
      → Tracks t f
      → Tracks (index_hashtable_replace old new t).1 (λ j. swap old new (f j))
  replace-Tracks f (w, eq) =
      let bucket = t.buckets (index_bucket (t.index old)) in
      elim (Bool-cases (is_entry_of old bucket)) [
        | inl here ↦
            subst (λ u. Tracks u (λ j. swap old new (f j))) (sym (replace-placed old new t here))
              (
                update_each (λ b l. IsBucket (update t.index new (t.index old)) b l) t.buckets
                    (index_bucket (t.index old)) (replaced old new bucket)
                    (replaced-IsBucket t.index old new (index_bucket (t.index old)) bucket
                      (out (index_bucket (t.index old))) (w (index_bucket (t.index old))))
                    (λ b. update-IsBucket t.index b new (t.index old) (t.buckets b) (out b) (w b)),
                (λ j. find-placed j ∙ ap (swap old new) (eq j)),
              )
        | inr absent ↦
            subst (λ u. Tracks u (λ j. swap old new (f j))) (sym (replace-absent old new t absent))
              (
                w,
                (λ j.
                    sym (
                      unswapped old new (find t j)
                        (λ found. let here = find-old t j old found in absurd (cc)))
                    ∙ ap (swap old new) (eq j)),
              )
      ]

run_calls-Tracks :
    (cs : List Call) (t : IndexHashtable) (f : Entries)
    → IsProper cs t
    → Tracks t f
    → Tracks (run_calls cs t).1 (apply_all cs (run_calls cs t).0 f)
unfolding run_call run_calls apply_all
run_calls-Tracks [] t f p w = w
run_calls-Tracks (insert draws e ∷ cs) t f p w =
    run_calls-Tracks cs _ _ p (insert-Tracks draws e t f w)
run_calls-Tracks (replace old new ∷ cs) t f (out, p) w =
    run_calls-Tracks cs _ _ p (replace-Tracks old new t out f w)
run_calls-Tracks (remove e ∷ cs) t f p w = run_calls-Tracks cs _ _ p (remove-Tracks e t f w)

-- What a lookup returns of the entry that has the index
abbrev pub granted : (ℕ → EntryType) → (ℕ → Bool) → Mask → Option ℕ → Option ℕ
granted types is_live mask none = none
granted types is_live mask (some e) = if is_in (types e) mask && is_live e then some e else none

lookup-find :
    (types : ℕ → EntryType) (is_live : ℕ → Bool) (mask : Mask) (i : ℕ) (t : IndexHashtable)
    → index_hashtable_lookup types is_live mask i t ≡ granted types is_live mask (find t i)
unfolding index_hashtable_lookup
lookup-find types is_live mask i t = elim (Option-cases (find t i)) [
  | inl h ↦ rw (h, index_hashtable_lookup, granted) refl
  | inr s ↦ rw (s.1, index_hashtable_lookup, granted) refl
]

alloc-Tracks : Tracks index_hashtable_alloc (λ j. none)
unfolding index_hashtable_alloc
alloc-Tracks = ((λ b. tt), (λ i. refl))

-- Take any insertions, replacements and removals, one after another, on the table that
-- index_hashtable_alloc returns, where an entry that replaces another is not in the table at that time.
-- Then a lookup of any index returns what the abstract table of the same calls has there: an insertion
-- takes its entry out of the place it had, and puts it at the index that the call answers if that index
-- is free (and otherwise does not); a replacement gives the new entry the place of the old, if the old
-- one has a place; a removal clears the place of the entry. The entry is returned if its type is asked for and its peer can be referred to, and
-- nothing is returned otherwise.
pub run_calls-index_hashtable_lookup :
    (types : ℕ → EntryType) (is_live : ℕ → Bool) (mask : Mask) (i : ℕ) (cs : List Call)
    → IsProper cs index_hashtable_alloc
    → index_hashtable_lookup types is_live mask i (run_calls cs index_hashtable_alloc).1
      ≡ granted types is_live mask
          (apply_all cs (run_calls cs index_hashtable_alloc).0 (λ j. none) i)
run_calls-index_hashtable_lookup types is_live mask i cs p =
    lookup-find types is_live mask i (run_calls cs index_hashtable_alloc).1
    ∙ ap (granted types is_live mask)
        ((run_calls-Tracks cs index_hashtable_alloc (λ j. none) p alloc-Tracks).1 i)
