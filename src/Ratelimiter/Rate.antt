-- ===== src/Ratelimiter/Rate.antt =====
-- How many handshake packets of one address pass.
use wireguard_receive_path.Prelude.{
  ℕ, ◌+◌, ◌-◌, ◌*◌, ◌≤◌, ◌≡◌, Bool, true, false, ◌==◌, ◌&&◌, not, if◌then◌else◌, List, [], ◌∷◌,
  arith, Bool-cases, inl, inr, refl, sym, ==_iff,
}
use wireguard_receive_path.Ratelimiter.{
  packet_cost, token_max, Ratelimiter, Source, ipv4, ipv6, other, gc_entries, entry_free, bucket_v4,
  bucket_v6, ratelimiter_allow,
}
use wireguard_receive_path.Ratelimiter.Budget.{
  budget, budget-later, budget-le, IsSane-later, IsTime,
}
use wireguard_receive_path.Ratelimiter.Handled.{
  same, AllSane, IsHandled, allow_in-IsHandled, gc_rounds-IsCollected,
}

-- What happens to the limiter while it is in use.
pub data Event : Type 0 where
  asks : (alloc : Bool) (net : ℕ) → Source → Event
  collects : Event
  frees : Event

-- The packet comes from this address in this namespace.
abbrev pub is_from : Bool → ℕ → ℕ → Event → Bool
is_from v6 net ip (asks alloc net' (ipv4 ip')) = not v6 && ((net' == net) && (ip' == ip))
is_from v6 net ip (asks alloc net' (ipv6 ip')) = v6 && ((net' == net) && (ip' == ip))
is_from v6 net ip (asks alloc net' other) = false
is_from v6 net ip collects = false
is_from v6 net ip frees = false

-- The times of the events do not go back.
abbrev pub IsOrdered : ℕ → List (ℕ × Event) → Type 0
IsOrdered clock [] = Unit
IsOrdered clock ((now, ev) ∷ evs) = (clock ≤ now) × IsTime now × IsOrdered now evs

abbrev pub end_time : ℕ → List (ℕ × Event) → ℕ
end_time clock [] = clock
end_time clock ((now, ev) ∷ evs) = end_time now evs

end_time-le :
    (clock : ℕ) (evs : List (ℕ × Event)) → IsOrdered clock evs → clock ≤ end_time clock evs
end_time-le clock [] o = omega arith
end_time-le clock ((now, ev) ∷ evs) (le, t, o) = omega (arith, end_time-le now evs o)

module _ (hsiphash_2u32 : ℕ → ℕ → ℕ) (hsiphash_3u32 : ℕ → ℕ → ℕ → ℕ) where
  unfoldable pub handle : ℕ → Event → Ratelimiter → Bool × Ratelimiter
  handle now (asks alloc net src) s =
      ratelimiter_allow hsiphash_2u32 hsiphash_3u32 alloc now net src s
  handle now collects s = (false, gc_entries false now s)
  handle now frees s = (false, entry_free s)

  -- The packets of one address that pass.
  unfoldable pub count_allowed : Bool → ℕ → ℕ → List (ℕ × Event) → Ratelimiter → ℕ
  unfolding handle
  count_allowed v6 net ip [] s = 0
  count_allowed v6 net ip ((now, ev) ∷ evs) s =
      let r = handle now ev s in
      (if r.0 && is_from v6 net ip ev then 1 else 0) + count_allowed v6 net ip evs r.1

  abbrev index : Bool → ℕ → ℕ → ℕ → ℕ
  index true size net ip = bucket_v6 hsiphash_2u32 hsiphash_3u32 size net ip
  index false size net ip = bucket_v4 hsiphash_2u32 hsiphash_3u32 size net ip

  abbrev budget_of : ℕ → Bool → ℕ → ℕ → Ratelimiter → ℕ
  budget_of now v6 net ip s = budget now net ip (s.table v6 (index v6 s.table_size net ip))

  record IsPaid (now : ℕ) (v6 : Bool) (net ip : ℕ) (ev : Event) (s : Ratelimiter)
      (r : Bool × Ratelimiter) : Type 0 where
    sane : AllSane now r.1
    paid :
        budget_of now v6 net ip r.1 + (if r.0 && is_from v6 net ip ev then packet_cost else 0)
        ≤ budget_of now v6 net ip s

  abbrev is_same : (w v6 : Bool) (net' net ip' ip : ℕ) → Bool
  is_same w v6 net' net ip' ip = same w v6 && ((net' == net) && (ip' == ip))

  same_iff : (w v : Bool) → same w v ≡ true → w ≡ v
  same_iff true v e = sym e
  same_iff false true e = absurd (cc)
  same_iff false false e = refl

  module _ (now : ℕ) (v6 : Bool) (net ip : ℕ) (s : Ratelimiter) (h : AllSane now s)
      (t : IsTime now) where
    abbrev IsCallPaid : Bool → Bool × Ratelimiter → Type 0
    IsCallPaid counted r =
        budget_of now v6 net ip r.1 + (if r.0 && counted then packet_cost else 0)
        ≤ budget_of now v6 net ip s

    call-IsPaid :
        (w : Bool) (net' ip' : ℕ) (r : Bool × Ratelimiter)
        → IsHandled now net' ip' w (index w s.table_size net' ip') s r
        → IsCallPaid (is_same w v6 net' net ip' ip) r
    call-IsPaid w net' ip' r p = elim (Bool-cases (is_same w v6 net' net ip' ip)) [
      | inl e ↦
          let a : w ≡ v6 = same_iff w v6 (ground (arith, e)) in
          let b : net' ≡ net = (==_iff net' net).0 (ground (arith, e)) in
          let c : ip' ≡ ip = (==_iff ip' ip).0 (ground (arith, e)) in
          rw (e, p.size, ← a, ← b, ← c) (ground (arith, p.paid))
      | inr e ↦
          rw (e, p.size)
            (ground (arith, p.others v6 (index v6 s.table_size net ip) net ip (ground (arith, e))))
    ]

    handle-IsPaid : (ev : Event) → IsPaid now v6 net ip ev s (handle now ev s)
    unfolding handle ratelimiter_allow gc_entries entry_free
    handle-IsPaid (asks alloc net' (ipv4 ip')) =
        let r =
          allow_in-IsHandled now net' ip' false (index false s.table_size net' ip') s h t alloc in
        record { sane = r.sane; paid = call-IsPaid false net' ip' _ r }
    handle-IsPaid (asks alloc net' (ipv6 ip')) =
        let r =
          allow_in-IsHandled now net' ip' true (index true s.table_size net' ip') s h t alloc in
        record { sane = r.sane; paid = call-IsPaid true net' ip' _ r }
    handle-IsPaid (asks alloc net' other) = record { sane = h; paid = omega arith }
    handle-IsPaid collects =
        let c = gc_rounds-IsCollected now s.table_size 0 s h t in
        record {
          sane = c.sane;
          paid = rw c.size (omega (arith, c.kept v6 (index v6 s.table_size net ip) net ip));
        }
    handle-IsPaid frees = record { sane = h; paid = omega arith }

  later-IsSane : (clock now : ℕ) (s : Ratelimiter) → clock ≤ now → AllSane clock s → AllSane now s
  later-IsSane clock now s le h v j = IsSane-later clock now (s.table v j) le (h v j)

  count_allowed-budget :
      (v6 : Bool) (net ip : ℕ) (evs : List (ℕ × Event)) (clock : ℕ) (s : Ratelimiter)
      → AllSane clock s
      → IsOrdered clock evs
      → count_allowed v6 net ip evs s * packet_cost
        ≤ budget_of clock v6 net ip s + (end_time clock evs - clock)
  unfolding count_allowed
  count_allowed-budget v6 net ip [] clock s h o = omega arith
  count_allowed-budget v6 net ip ((now, ev) ∷ evs) clock s h (le, t, o) =
      let here = handle-IsPaid now v6 net ip s (later-IsSane clock now s le h) t ev in
      let rest = count_allowed-budget v6 net ip evs now (handle now ev s).1 here.sane o in
      ground (
        arith,
        here.paid,
        rest,
        end_time-le now evs o,
        budget-later clock now net ip (s.table v6 (index v6 s.table_size net ip)) (h v6 _) le t,
      )

  -- From a table whose entries were made and charged by the time `clock`, with a clock that does not go
  -- back: of one address, over any sequence of packets of all addresses, collections and frees, at most
  -- the burst of 5 passes, and one more for each 50 ms that go by.
  pub count_allowed_lem :
      (v6 : Bool) (net ip : ℕ) (evs : List (ℕ × Event)) (clock : ℕ) (s : Ratelimiter)
      → AllSane clock s
      → IsOrdered clock evs
      → count_allowed v6 net ip evs s * packet_cost ≤ token_max + (end_time clock evs - clock)
  count_allowed_lem v6 net ip evs clock s h o = omega (
    arith,
    count_allowed-budget v6 net ip evs clock s h o,
    budget-le clock net ip (s.table v6 (index v6 s.table_size net ip)),
  )
