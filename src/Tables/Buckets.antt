-- ===== src/Tables/Buckets.antt =====
-- The lists of one bucket: what a lookup finds after an entry was taken out, put in or replaced.
use wireguard_receive_path.Prelude.{
  ℕ, ◌≡◌, true, false, ◌==◌, if◌then◌else◌, Option, none, some, List, [], ◌∷◌, update, update_self,
  update_ne, refl, sym, ap, ◌∙◌, arith, Bool-cases, inl, inr, ==_iff, subst,
}
use wireguard_receive_path.Tables.{without_entry, is_entry_of, entry_at, replaced, index_bucket}

-- The entries of bucket `b` belong there, and no two have one index.
abbrev pub IsBucket : (ℕ → ℕ) → ℕ → List ℕ → Type 0
IsBucket index b [] = Unit
IsBucket index b (e ∷ es) =
    (index_bucket (index e) ≡ b) × (entry_at index (index e) es ≡ none) × IsBucket index b es

-- What is found, without an entry, and with another in its place
abbrev pub drop : ℕ → Option ℕ → Option ℕ
drop e none = none
drop e (some x) = if x == e then none else some x

abbrev pub swap : (old new : ℕ) → Option ℕ → Option ℕ
swap old new none = none
swap old new (some x) = if x == old then some new else some x

pub entry_at-without_entry :
    (index : ℕ → ℕ) (b e i : ℕ) (l : List ℕ)
    → IsBucket index b l
    → entry_at index i (without_entry e l) ≡ drop e (entry_at index i l)
entry_at-without_entry index b e i [] w = refl
entry_at-without_entry index b e i (x ∷ xs) (at, alone, w) =
    let rest = entry_at-without_entry index b e i xs w in
    elim (Bool-cases (x == e)) [
      | inl here ↦ elim (Bool-cases (index x == i)) [
        | inr other ↦ simp (here, other) rest
        | inl same ↦
            simp (here, same)
              (rest
                ∙ ap (drop e)
                    (subst (λ j. entry_at index j xs ≡ none) ((==_iff (index x) i).0 same) alone))
      ]
      | inr there ↦ elim (Bool-cases (index x == i)) [
        | inr other ↦ simp (there, other) rest
        | inl same ↦ simp (there, same) refl
      ]
    ]

pub without_entry-IsBucket :
    (index : ℕ → ℕ) (b e : ℕ) (l : List ℕ)
    → IsBucket index b l
    → IsBucket index b (without_entry e l)
without_entry-IsBucket index b e [] w = tt
without_entry-IsBucket index b e (x ∷ xs) (at, alone, w) = elim (Bool-cases (x == e)) [
  | inl here ↦ simp (here) (without_entry-IsBucket index b e xs w)
  | inr there ↦ simp (there) (
    at,
    (entry_at-without_entry index b e (index x) xs w ∙ ap (drop e) alone),
    without_entry-IsBucket index b e xs w,
  )
]

pub is_entry_of-without_entry : (e : ℕ) (l : List ℕ) → is_entry_of e (without_entry e l) ≡ false
is_entry_of-without_entry e [] = refl
is_entry_of-without_entry e (x ∷ xs) =
    let rest = is_entry_of-without_entry e xs in ground (arith, rest)

-- The index of an entry that is not in the list does not matter.
pub entry_at-update :
    (index : ℕ → ℕ) (e i j : ℕ) (l : List ℕ)
    → is_entry_of e l ≡ false
    → entry_at (update index e i) j l ≡ entry_at index j l
entry_at-update index e i j [] h = refl
entry_at-update index e i j (x ∷ xs) h =
    let other : (e == x) ≡ false = ground (arith, h) in
    let rest = entry_at-update index e i j xs (ground (arith, h)) in
    simp (update_ne index e i x other, rest) refl

pub update-IsBucket :
    (index : ℕ → ℕ) (b e i : ℕ) (l : List ℕ)
    → is_entry_of e l ≡ false
    → IsBucket index b l
    → IsBucket (update index e i) b l
update-IsBucket index b e i [] h w = tt
update-IsBucket index b e i (x ∷ xs) h (at, alone, w) =
    let other : (e == x) ≡ false = ground (arith, h) in
    let out : is_entry_of e xs ≡ false = ground (arith, h) in
    let same = update_ne index e i x other in
    (
      ap index_bucket same ∙ at,
      (entry_at-update index e i (update index e i x) xs out
          ∙ ap (λ j. entry_at index j xs) same
          ∙ alone),
      update-IsBucket index b e i xs out w,
    )

-- An entry that is found is in the bucket, and has the index.
pub entry_at-found :
    (index : ℕ → ℕ) (i e : ℕ) (l : List ℕ)
    → entry_at index i l ≡ some e
    → (is_entry_of e l ≡ true) × (index e ≡ i)
entry_at-found index i e [] h = absurd (cc)
entry_at-found index i e (x ∷ xs) h = elim (Bool-cases (index x == i)) [
  | inl same ↦
      let h' : some x ≡ some e = simp (same) at h in
      let eq : x ≡ e = cc in
      (ground (arith, eq), subst (λ y. index y ≡ i) eq ((==_iff (index x) i).0 same))
  | inr other ↦
      let h' : entry_at index i xs ≡ some e = simp (other) at h in
      let r = entry_at-found index i e xs h' in (ground (arith, r.0), r.1)
]

-- One entry in place of another: `new` gets the index of `old`.
module _ (index : ℕ → ℕ) (old new : ℕ) where
  abbrev instead : ℕ → ℕ
  instead x = if x == old then new else x

  index-instead : (x : ℕ) → (new == x) ≡ false → update index new (index old) (instead x) ≡ index x
  index-instead x h = elim (Bool-cases (x == old)) [
    | inl e ↦ rw (e) (update_self index new (index old) ∙ ap index (sym ((==_iff x old).0 e)))
    | inr e ↦ rw (e) (update_ne index new (index old) x h)
  ]

  some-instead : (x : ℕ) → some (instead x) ≡ (if x == old then some new else some x)
  some-instead x = elim (Bool-cases (x == old)) [ inl e ↦ simp (e) refl | inr e ↦ simp (e) refl ]

  pub entry_at-replaced :
      (i : ℕ) (l : List ℕ)
      → is_entry_of new l ≡ false
      → entry_at (update index new (index old)) i (replaced old new l)
        ≡ swap old new (entry_at index i l)
  entry_at-replaced i [] h = refl
  entry_at-replaced i (x ∷ xs) h =
      let rest = entry_at-replaced i xs (ground (arith, h)) in
      let same = index-instead x (ground (arith, h)) in
      ap
        (λ j.
          if j == i
          then some (instead x)
          else entry_at (update index new (index old)) i (replaced old new xs))
        same
      ∙ elim (Bool-cases (index x == i)) [
        | inl f ↦ simp (f) (some-instead x)
        | inr f ↦ simp (f) rest
      ]

  pub replaced-IsBucket :
      (b : ℕ) (l : List ℕ)
      → is_entry_of new l ≡ false
      → IsBucket index b l
      → IsBucket (update index new (index old)) b (replaced old new l)
  replaced-IsBucket b [] h w = tt
  replaced-IsBucket b (x ∷ xs) h (at, alone, w) =
      let out : is_entry_of new xs ≡ false = ground (arith, h) in
      let same = index-instead x (ground (arith, h)) in
      (
        ap index_bucket same ∙ at,
        (ap (λ j. entry_at (update index new (index old)) j (replaced old new xs)) same
            ∙ entry_at-replaced (index x) xs out
            ∙ ap (swap old new) alone),
        replaced-IsBucket b xs out w,
      )
