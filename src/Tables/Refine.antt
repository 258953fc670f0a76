-- ===== src/Tables/Refine.antt =====
-- The index hashtable against the abstract table: at most one entry for each index.
use wireguard_receive_path.Prelude.{
  ℕ, ◌≡◌, true, false, ◌==◌, if◌then◌else◌, Option, none, some, List, [], ◌∷◌, update, update_self,
  update_each, refl, sym, ap, ◌∙◌, arith, Bool-cases, Option-cases, inl, inr, ==_iff, subst,
}
use wireguard_receive_path.Tables.{
  IndexHashtable, index_bucket, is_entry_of, entry_at, index_hashtable_remove, search_unused_slot,
  index_hashtable_insert, index_hashtable_replace,
}
use wireguard_receive_path.Tables.Buckets.{
  IsBucket, drop, swap, entry_at-without_entry, without_entry-IsBucket, entry_at-update,
  update-IsBucket,
}

abbrev pub find : IndexHashtable → ℕ → Option ℕ
find t i = entry_at t.index i (t.buckets (index_bucket i))

abbrev pub IsTable : IndexHashtable → Type 0
IsTable t = (b : ℕ) → IsBucket t.index b (t.buckets b)

-- The abstract table: the entry of each index.
abbrev pub Entries : Type 0
Entries = ℕ → Option ℕ

abbrev pub Tracks : IndexHashtable → Entries → Type 0
Tracks t f = IsTable t × ((i : ℕ) → find t i ≡ f i)

-- An entry is put at an index that is free.
abbrev pub added : (entry index : ℕ) → Entries → Entries
added e i f j = elim (f i) [ none ↦ (if i == j then some e else f j) | some x ↦ f j ]

pub data Call : Type 0 where
  insert : (draws : List ℕ) (entry : ℕ) → Call
  replace : (old new : ℕ) → Call
  remove : (entry : ℕ) → Call

-- What a call answers: the index of an insertion.
unfoldable pub run_call : Call → IndexHashtable → Option ℕ × IndexHashtable
run_call (insert draws e) t = index_hashtable_insert draws e t
run_call (replace old new) t = (none, (index_hashtable_replace old new t).1)
run_call (remove e) t = (none, index_hashtable_remove e t)

abbrev pub apply : Call → Option ℕ → Entries → Entries
apply (insert draws e) none f = λ j. drop e (f j)
apply (insert draws e) (some i) f = added e i (λ j. drop e (f j))
apply (replace old new) answer f = λ j. swap old new (f j)
apply (remove e) answer f = λ j. drop e (f j)

unfoldable pub run_calls : List Call → IndexHashtable → List (Option ℕ) × IndexHashtable
run_calls [] t = ([], t)
run_calls (c ∷ cs) t =
    let now = run_call c t in let rest = run_calls cs now.1 in (now.0 ∷ rest.0, rest.1)

unfoldable pub apply_all : List Call → List (Option ℕ) → Entries → Entries
apply_all [] xs f = f
apply_all (c ∷ cs) [] f = f
apply_all (c ∷ cs) (x ∷ xs) f = apply_all cs xs (apply c x f)

-- An entry that replaces another is not in the table.
abbrev pub IsProper : List Call → IndexHashtable → Type 0
IsProper [] t = Unit
IsProper (insert draws e ∷ cs) t = IsProper cs (run_call (insert draws e) t).1
IsProper (replace old new ∷ cs) t =
    ((b : ℕ) → is_entry_of new (t.buckets b) ≡ false) × IsProper cs (run_call (replace old new) t).1
IsProper (remove e ∷ cs) t = IsProper cs (run_call (remove e) t).1

pub remove-Tracks :
    (e : ℕ) (t : IndexHashtable) (f : Entries)
    → Tracks t f
    → Tracks (index_hashtable_remove e t) (λ j. drop e (f j))
unfolding index_hashtable_remove
remove-Tracks e t f (w, eq) = (
  (λ b. without_entry-IsBucket t.index b e (t.buckets b) (w b)),
  (λ i.
      entry_at-without_entry t.index (index_bucket i) e i (t.buckets (index_bucket i))
        (w (index_bucket i))
      ∙ ap (drop e) (eq i)),
)

pub search_unused_slot-free :
    (draws : List ℕ) (t : IndexHashtable) (i : ℕ)
    → search_unused_slot draws t ≡ some i
    → find t i ≡ none
unfolding search_unused_slot
search_unused_slot-free [] t i h = absurd (cc)
search_unused_slot-free (j ∷ draws) t i h = elim (Option-cases (find t j)) [
  | inl free ↦
      let h' : some j ≡ some i = rw (free, search_unused_slot) at h in
      let same : j ≡ i = cc in subst (λ x. find t x ≡ none) same free
  | inr taken ↦
      let h' : search_unused_slot draws t ≡ some i = rw (taken.1, search_unused_slot) at h in
      search_unused_slot-free draws t i h'
]

added-here : (e i j : ℕ) (f : Entries) → f i ≡ none → (i == j) ≡ true → added e i f j ≡ some e
added-here e i j f free h = rw (free, added) (simp (h) refl)

added-elsewhere : (e i j : ℕ) (f : Entries) → f i ≡ none → (i == j) ≡ false → added e i f j ≡ f j
added-elsewhere e i j f free h = rw (free, added) (simp (h) refl)

-- An entry that is in no bucket is put at a free index.
abbrev pub put : (entry index : ℕ) → IndexHashtable → IndexHashtable
put e i t = record {
  buckets = update t.buckets (index_bucket i) (e ∷ t.buckets (index_bucket i));
  index = update t.index e i;
}

pub put-Tracks :
    (e i : ℕ) (t : IndexHashtable) (f : Entries)
    → ((b : ℕ) → is_entry_of e (t.buckets b) ≡ false)
    → find t i ≡ none
    → Tracks t f
    → Tracks (put e i t) (added e i f)
put-Tracks e i t f out free (w, eq) = (
  table,
  (λ j. elim (Bool-cases (i == j)) [
    | inl same ↦
        subst (λ x. find (put e i t) x ≡ added e i f x) ((==_iff i j).0 same)
          (at_index ∙ sym (added-here e i i f none_yet (ground arith)))
    | inr other ↦ elsewhere j other ∙ eq j ∙ sym (added-elsewhere e i j f none_yet other)
  ]),
)
  where
    self : update t.index e i e ≡ i
    self = update_self t.index e i

    bucket : ℕ
    bucket = index_bucket i

    table : IsTable (put e i t)
    table =
        update_each (λ b l. IsBucket (update t.index e i) b l) t.buckets (index_bucket i)
          (e ∷ t.buckets (index_bucket i))
          (
            ap index_bucket self,
            (entry_at-update t.index e i (update t.index e i e) (t.buckets (index_bucket i))
                  (out (index_bucket i))
                ∙ ap (λ j. entry_at t.index j (t.buckets (index_bucket i))) self
                ∙ free),
            update-IsBucket t.index (index_bucket i) e i (t.buckets (index_bucket i))
                (out (index_bucket i)) (w (index_bucket i)),
          )
          (λ b. update-IsBucket t.index b e i (t.buckets b) (out b) (w b))

    none_yet : f i ≡ none
    none_yet = sym (eq i) ∙ free

    first :
        (j : ℕ)
        → (i == j) ≡ true
        → entry_at (update t.index e i) j (e ∷ t.buckets (index_bucket i)) ≡ some e
    first j h = rw self (simp (h) refl)

    later :
        (j : ℕ)
        → (i == j) ≡ false
        → entry_at (update t.index e i) j (e ∷ t.buckets (index_bucket i))
          ≡ entry_at t.index j (t.buckets (index_bucket i))
    later j h = rw self (
        simp (h)
          (entry_at-update t.index e i j (t.buckets (index_bucket i)) (out (index_bucket i))))

    at_index : find (put e i t) i ≡ some e
    at_index =
        ap (entry_at (update t.index e i) i)
          (update_self t.buckets (index_bucket i) (e ∷ t.buckets (index_bucket i)))
        ∙ first i (ground arith)

    elsewhere : (j : ℕ) → (i == j) ≡ false → find (put e i t) j ≡ find t j
    elsewhere j h =
        update_each
          (λ b l.
            (b ≡ index_bucket j)
            → entry_at (update t.index e i) j l ≡ entry_at t.index j (t.buckets b))
          t.buckets (index_bucket i) (e ∷ t.buckets (index_bucket i)) (λ same. later j h)
          (λ b same. entry_at-update t.index e i j (t.buckets b) (out b)) (index_bucket j) refl
