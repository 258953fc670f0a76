-- ===== src/Ratelimiter/Handled.antt =====
-- One call of the rate limiter, and one collection, seen from any address.
use wireguard_receive_path.Prelude.{
  ℕ, zero, suc, ◌+◌, ◌≤◌, ◌≡◌, Bool, true, false, ltb, ◌==◌, ◌&&◌, not, if◌then◌else◌, Option, none,
  some, List, ◌∷◌, arith, Bool-cases, ◌⊎◌, inl, inr, refl, ap, sym, ◌∙◌, ==_iff,
}
use wireguard_receive_path.Ratelimiter.{
  packet_cost, token_max, Entry, Ratelimiter, set_bucket, new_entry, search_bucket, add_entry,
  allow_in, gc_bucket, gc_index, gc_rounds,
}
use wireguard_receive_path.Ratelimiter.Budget.{
  budget, IsSane, IsTime, Searched, search_bucket-Searched, new_entry-budget, new_entry-others,
  gc_bucket-budget, gc_bucket-IsSane,
}

abbrev pub same : Bool → Bool → Bool
same true v = v
same false v = not v

abbrev pub AllSane : ℕ → Ratelimiter → Type 0
AllSane clock s = (v : Bool) (j : ℕ) → IsSane clock (s.table v j)

-- A call for one address pays from its budget, and leaves every other address's alone.
pub record IsHandled (now net ip : ℕ) (v6 : Bool) (i : ℕ) (s : Ratelimiter) (r : Bool × Ratelimiter)
    : Type 0 where
  pub sane : AllSane now r.1
  pub size : r.1.table_size ≡ s.table_size
  pub paid :
      budget now net ip (r.1.table v6 i) + (if r.0 then packet_cost else 0)
      ≤ budget now net ip (s.table v6 i)
  pub others :
      (v : Bool) (j net' ip' : ℕ)
      → (same v6 v && ((i == j) && ((net == net') && (ip == ip')))) ≡ false
      → budget now net' ip' (r.1.table v j) ≡ budget now net' ip' (s.table v j)

-- Every bucket is the one that was set, or as before.
set_bucket-at :
    (v6 : Bool) (i : ℕ) (l : List Entry) (s : Ratelimiter) (v : Bool) (j : ℕ)
    → (((same v6 v && (i == j)) ≡ true)
        × ((set_bucket v6 i l s).table v j ≡ l)
        × (s.table v j ≡ s.table v6 i))
      ⊎ (((same v6 v && (i == j)) ≡ false) × ((set_bucket v6 i l s).table v j ≡ s.table v j))
set_bucket-at true i l s true j = elim (Bool-cases (i == j)) [
  | inl e ↦ inl (e, ground (arith, e), ap (s.table true) (sym ((==_iff i j).0 e)))
  | inr e ↦ inr (e, ground (arith, e))
]
set_bucket-at true i l s false j = inr (refl, refl)
set_bucket-at false i l s true j = inr (refl, refl)
set_bucket-at false i l s false j = elim (Bool-cases (i == j)) [
  | inl e ↦ inl (e, ground (arith, e), ap (s.table false) (sym ((==_iff i j).0 e)))
  | inr e ↦ inr (e, ground (arith, e))
]

set_bucket_self :
    (v6 : Bool) (i : ℕ) (l : List Entry) (s : Ratelimiter) → (set_bucket v6 i l s).table v6 i ≡ l
set_bucket_self true i l s = ground (arith)
set_bucket_self false i l s = ground (arith)

module _ (now net ip : ℕ) (v6 : Bool) (i : ℕ) (s : Ratelimiter) (h : AllSane now s)
    (t : IsTime now) where
  -- The bucket is replaced.
  set_bucket-IsHandled :
      (ret : Bool) (l : List Entry) (total : ℕ)
      → IsSane now l
      → budget now net ip l + (if ret then packet_cost else 0) ≤ budget now net ip (s.table v6 i)
      → ((net' ip' : ℕ)
          → ((net == net') && (ip == ip')) ≡ false
          → budget now net' ip' l ≡ budget now net' ip' (s.table v6 i))
      → IsHandled now net ip v6 i s
          (ret, (let q = set_bucket v6 i l s in record q { total_entries = total }))
  set_bucket-IsHandled ret l total sane paid others = record {
    sane = λ v j. elim (set_bucket-at v6 i l s v j) [
      | inl (e, new, old) ↦ rw new sane
      | inr (e, old) ↦ rw old (h v j)
    ];
    size = refl;
    paid = rw (set_bucket_self v6 i l s) paid;
    others = λ v j net' ip' ne. elim (set_bucket-at v6 i l s v j) [
      | inl (e, new, old) ↦ rw (new, old) (others net' ip' (ground (arith, e, ne)))
      | inr (e, old) ↦ rw old refl
    ];
  }

  unchanged-IsHandled : IsHandled now net ip v6 i s (false, s)
  unchanged-IsHandled = record {
    sane = h;
    size = refl;
    paid = omega arith;
    others = λ v j net' ip' ne. refl;
  }

  add_entry-IsHandled :
      (alloc : Bool)
      → budget now net ip (s.table v6 i) ≡ token_max
      → IsHandled now net ip v6 i s (add_entry alloc now net ip v6 i s)
  unfolding add_entry
  add_entry-IsHandled alloc full = elim (Bool-cases (ltb s.max_entries (s.total_entries + 1))) [
    | inl e ↦ simp e unchanged-IsHandled
    | inr e ↦ elim (Bool-cases alloc) [
      | inr e' ↦ simp (e, e') unchanged-IsHandled
      | inl e' ↦
          simp (e, e')
            (set_bucket-IsHandled true (new_entry now net ip ∷ s.table v6 i) (s.total_entries + 1)
              (omega arith, omega arith, h v6 i)
              (omega (arith, new_entry-budget now net ip (s.table v6 i) t, full))
              (λ net' ip' ne. new_entry-others now net ip net' ip' (s.table v6 i) ne))
    ]
  ]

  answer-IsHandled :
      (alloc : Bool) (o : Option (Bool × List Entry))
      → Searched now net ip (s.table v6 i) o
      → IsHandled now net ip v6 i s (elim o [
        | none ↦ add_entry alloc now net ip v6 i s
        | some (ret, l) ↦ (ret, set_bucket v6 i l s)
      ])
  answer-IsHandled alloc none full = add_entry-IsHandled alloc full
  answer-IsHandled alloc (some (ret, l)) c =
      set_bucket-IsHandled ret l s.total_entries c.sane (omega (arith, c.spent)) c.others

  pub allow_in-IsHandled :
      (alloc : Bool) → IsHandled now net ip v6 i s (allow_in alloc now net ip v6 i s)
  unfolding allow_in
  allow_in-IsHandled alloc =
      answer-IsHandled alloc (search_bucket now net ip (s.table v6 i))
        (search_bucket-Searched now net ip (s.table v6 i) (h v6 i) t)

-- A collection leaves no address more than it had.
pub record IsCollected (now : ℕ) (s s' : Ratelimiter) : Type 0 where
  pub sane : AllSane now s'
  pub size : s'.table_size ≡ s.table_size
  pub kept :
      (v : Bool) (j net ip : ℕ) → budget now net ip (s'.table v j) ≤ budget now net ip (s.table v j)

gc_index-at :
    (now i : ℕ) (s : Ratelimiter) (v : Bool) (j : ℕ)
    → ((gc_index false now i s).table v j ≡ s.table v j)
      ⊎ ((gc_index false now i s).table v j ≡ gc_bucket false now (s.table v j))
unfolding gc_index
gc_index-at now i s true j = elim (Bool-cases (i == j)) [
  | inl e ↦ inr (rw (← (==_iff i j).0 e) (ground (arith)))
  | inr e ↦ inl (ground (arith, e))
]
gc_index-at now i s false j = elim (Bool-cases (i == j)) [
  | inl e ↦ inr (rw (← (==_iff i j).0 e) (ground (arith)))
  | inr e ↦ inl (ground (arith, e))
]

gc_index-size :
    (all : Bool) (now i : ℕ) (s : Ratelimiter) → (gc_index all now i s).table_size ≡ s.table_size
unfolding gc_index
gc_index-size all now i s = refl

gc_index-IsCollected :
    (now i : ℕ) (s : Ratelimiter)
    → AllSane now s
    → IsTime now
    → IsCollected now s (gc_index false now i s)
gc_index-IsCollected now i s h t = record {
  sane = λ v j. elim (gc_index-at now i s v j) [
    | inl e ↦ rw e (h v j)
    | inr e ↦ rw e (gc_bucket-IsSane false now now (s.table v j) (h v j))
  ];
  size = gc_index-size false now i s;
  kept = λ v j net ip. elim (gc_index-at now i s v j) [
    | inl e ↦ rw e (omega arith)
    | inr e ↦ rw e (gc_bucket-budget now net ip (s.table v j) (h v j) t)
  ];
}

pub gc_rounds-IsCollected :
    (now n i : ℕ) (s : Ratelimiter)
    → AllSane now s
    → IsTime now
    → IsCollected now s (gc_rounds false now n i s)
unfolding gc_rounds
gc_rounds-IsCollected now zero i s h t = record {
  sane = h;
  size = refl;
  kept = λ v j net ip. omega arith;
}
gc_rounds-IsCollected now (suc n) i s h t =
    let c = gc_index-IsCollected now i s h t in
    let r = gc_rounds-IsCollected now n (i + 1) (gc_index false now i s) c.sane t in
    record {
      sane = r.sane;
      size = r.size ∙ c.size;
      kept = λ v j net ip. omega (arith, r.kept v j net ip, c.kept v j net ip);
    }
