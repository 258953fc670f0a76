-- ===== src/Ratelimiter/Budget.antt =====
-- What one bucket of the table leaves to an address.
use wireguard_receive_path.Prelude.{
  ℕ, suc, ◌+◌, ◌-◌, ◌^◌, ◌≤◌, ◌<◌, ◌≡◌, min, Bool, true, false, leb, ◌==◌, ◌&&◌, if◌then◌else◌,
  Option, none, some, List, [], ◌∷◌, length, arith, Bool-cases, inl, inr, refl, ap,
}
use wireguard_receive_path.Ratelimiter.{
  packet_cost, token_max, Entry, matches, refill, charge, search_bucket, new_entry, gc_bucket,
  is_collected,
}

-- The tokens that a bucket leaves to an address; one without an entry may spend them all.
abbrev pub budget : ℕ → ℕ → ℕ → List Entry → ℕ
budget now net ip [] = token_max
budget now net ip (e ∷ l) = if matches net ip e then refill now e else budget now net ip l

-- Every entry was made or charged by the time `clock`.
abbrev pub IsSane : ℕ → List Entry → Type 0
IsSane clock [] = Unit
IsSane clock (e ∷ l) = (e.last_time_ns ≤ clock) × (e.tokens ≤ token_max) × IsSane clock l

-- A time in nanoseconds that the unsigned arithmetic does not wrap at.
abbrev pub IsTime : ℕ → Type 0
IsTime now = now < 2 ^ 63

refill_lem :
    (now : ℕ) (e : Entry)
    → e.last_time_ns ≤ now
    → e.tokens ≤ token_max
    → IsTime now
    → refill now e ≡ min token_max (e.tokens + (now - e.last_time_ns))
refill_lem now e a b c = omega arith

pub IsSane-later : (clock now : ℕ) (l : List Entry) → clock ≤ now → IsSane clock l → IsSane now l
IsSane-later clock now [] h s = s
IsSane-later clock now (e ∷ l) h (a, b, s) = (omega arith, b, IsSane-later clock now l h s)

-- A token comes with every nanosecond at most.
pub budget-later :
    (now later net ip : ℕ) (l : List Entry)
    → IsSane now l
    → now ≤ later
    → IsTime later
    → budget later net ip l ≤ budget now net ip l + (later - now)
budget-later now later net ip [] s h t = omega arith
budget-later now later net ip (e ∷ l) (a, b, s) h t =
    ground (arith, budget-later now later net ip l s h t, refill_lem now e, refill_lem later e)

pub budget-le : (now net ip : ℕ) (l : List Entry) → budget now net ip l ≤ token_max
budget-le now net ip [] = omega arith
budget-le now net ip (e ∷ l) = ground (arith, budget-le now net ip l)

-- What the search of a bucket finds.
pub record IsCharged (now net ip : ℕ) (l : List Entry) (ret : Bool) (l' : List Entry) : Type 0 where
  pub spent : budget now net ip l' + (if ret then packet_cost else 0) ≡ budget now net ip l
  pub enough : ret ≡ leb packet_cost (budget now net ip l)
  pub others :
      (net' ip' : ℕ)
      → ((net == net') && (ip == ip')) ≡ false
      → budget now net' ip' l' ≡ budget now net' ip' l
  pub sane : IsSane now l'
  pub size : length l' ≡ length l

abbrev pub Searched : ℕ → ℕ → ℕ → List Entry → Option (Bool × List Entry) → Type 0
Searched now net ip l none = budget now net ip l ≡ token_max
Searched now net ip l (some (ret, l')) = IsCharged now net ip l ret l'

charge-IsCharged :
    (now net ip : ℕ) (e : Entry) (l : List Entry)
    → IsSane now (e ∷ l)
    → IsTime now
    → matches net ip e ≡ true
    → IsCharged now net ip (e ∷ l) (charge now e).0 ((charge now e).1 ∷ l)
unfolding charge
charge-IsCharged now net ip e l (a, b, s) t m = record {
  spent = ground (arith, m);
  enough = ground (arith, m);
  others = λ net' ip' h. ground (arith, m, h);
  sane = (ground (arith), ground (arith), s);
  size = refl;
}

-- The entry in front is another address's.
pass-Searched :
    (now net ip : ℕ) (e : Entry) (l : List Entry) (o : Option (Bool × List Entry))
    → IsSane now (e ∷ l)
    → matches net ip e ≡ false
    → Searched now net ip l o
    → Searched now net ip (e ∷ l) (elim o [ none ↦ none | some (ret, l') ↦ some (ret, e ∷ l') ])
pass-Searched now net ip e l none (a, b, s) m h = simp m h
pass-Searched now net ip e l (some (ret, l')) (a, b, s) m h = record {
  spent = ground (arith, m, h.spent);
  enough = ground (arith, m, h.enough);
  others = λ net' ip' ne. ground (arith, h.others net' ip' ne);
  sane = (a, b, h.sane);
  size = ap suc h.size;
}

pub search_bucket-Searched :
    (now net ip : ℕ) (l : List Entry)
    → IsSane now l
    → IsTime now
    → Searched now net ip l (search_bucket now net ip l)
unfolding search_bucket
search_bucket-Searched now net ip [] s t = refl
search_bucket-Searched now net ip (e ∷ l) (a, b, s) t = elim (Bool-cases (matches net ip e)) [
  | inl m ↦ simp m (charge-IsCharged now net ip e l (a, b, s) t m)
  | inr m ↦ simp m (
      pass-Searched now net ip e l (search_bucket now net ip l) (a, b, s) m
        (search_bucket-Searched now net ip l s t))
]

-- A new entry in front of the bucket of an address that had none.
pub new_entry-budget :
    (now net ip : ℕ) (l : List Entry)
    → IsTime now
    → budget now net ip (new_entry now net ip ∷ l) ≡ token_max - packet_cost
new_entry-budget now net ip l t = ground (arith)

pub new_entry-others :
    (now net ip net' ip' : ℕ) (l : List Entry)
    → ((net == net') && (ip == ip')) ≡ false
    → budget now net' ip' (new_entry now net ip ∷ l) ≡ budget now net' ip' l
new_entry-others now net ip net' ip' l h = ground (arith, h)

-- An entry that is collected had all its tokens back.
pub gc_bucket-budget :
    (now net ip : ℕ) (l : List Entry)
    → IsSane now l
    → IsTime now
    → budget now net ip (gc_bucket false now l) ≤ budget now net ip l
unfolding gc_bucket
gc_bucket-budget now net ip [] s t = omega arith
gc_bucket-budget now net ip (e ∷ l) (a, b, s) t = ground (
  arith,
  gc_bucket-budget now net ip l s t,
  budget-le now net ip (gc_bucket false now l),
  refill_lem now e a b t,
)

pub gc_bucket-IsSane :
    (all : Bool) (now clock : ℕ) (l : List Entry)
    → IsSane clock l
    → IsSane clock (gc_bucket all now l)
unfolding gc_bucket
gc_bucket-IsSane all now clock [] s = s
gc_bucket-IsSane all now clock (e ∷ l) (a, b, s) = elim (Bool-cases (is_collected all now e)) [
  | inl c ↦ simp c (gc_bucket-IsSane all now clock l s)
  | inr c ↦ simp c (a, b, gc_bucket-IsSane all now clock l s)
]
