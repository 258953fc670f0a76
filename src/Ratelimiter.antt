-- ===== src/Ratelimiter.antt =====
-- linux-source/drivers/net/wireguard/ratelimiter.c: one token bucket for each source address of
-- handshake packets, in a hash table whose idle entries are collected.
pub mod Budget
pub mod Handled
pub mod Rate
mod Tests
use wireguard_receive_path.Prelude.{
  ℕ, zero, suc, ◌+◌, ◌-◌, ◌*◌, ◌/◌, ◌%◌, ◌^◌, min, Bool, true, false, ltb, leb, ◌==◌, ◌&&◌, ◌||◌,
  not, if◌then◌else◌, Option, none, some, List, [], ◌∷◌, u64, sub64, update, length,
}

abbrev pub nsec_per_sec : ℕ
nsec_per_sec = 1000000000

abbrev pub packets_per_second : ℕ
packets_per_second = 20

abbrev pub packets_burstable : ℕ
packets_burstable = 5

abbrev pub packet_cost : ℕ
packet_cost = nsec_per_sec / packets_per_second

abbrev pub token_max : ℕ
token_max = packet_cost * packets_burstable

-- struct ratelimiter_entry
pub record Entry : Type 0 where
  pub last_time_ns : ℕ
  pub tokens : ℕ
  pub ip : ℕ
  pub net : ℕ

-- table_v4 and table_v6, as one function of whether the address is of IPv6. `dying` counts the
-- entries that are out of their bucket and wait for entry_free.
pub record Ratelimiter : Type 0 where
  pub table : Bool → ℕ → List Entry
  pub table_size : ℕ
  pub max_entries : ℕ
  pub total_entries : ℕ
  pub dying : ℕ

-- skb->protocol, with the source address: the whole of it for IPv4, its first 64 bits for IPv6.
pub data Source : Type 0 where
  ipv4 : (ip : ℕ) → Source
  ipv6 : (ip : ℕ) → Source
  other : Source

abbrev pub matches : ℕ → ℕ → Entry → Bool
matches net ip e = (e.net == net) && (e.ip == ip)

-- The tokens that an entry has at the time `now`.
abbrev pub refill : ℕ → Entry → ℕ
refill now e = min token_max (sub64 (u64 (e.tokens + now)) e.last_time_ns)

-- What is done with an entry that was found, under its lock.
unfoldable pub charge : ℕ → Entry → Bool × Entry
charge now e =
    let tokens = refill now e in
    let ret = leb packet_cost tokens in
    (ret, record e { last_time_ns = now; tokens = if ret then tokens - packet_cost else tokens })

-- The search of one bucket: the answer and the bucket, if the address has an entry.
unfoldable pub search_bucket : ℕ → ℕ → ℕ → List Entry → Option (Bool × List Entry)
unfolding charge
search_bucket now net ip [] = none
search_bucket now net ip (e ∷ l) =
    if matches net ip e
    then some ((charge now e).0, (charge now e).1 ∷ l)
    else elim (search_bucket now net ip l) [ none ↦ none | some (ret, l') ↦ some (ret, e ∷ l') ]

abbrev pub set_bucket : Bool → ℕ → List Entry → Ratelimiter → Ratelimiter
set_bucket v6 i l s = record s {
  table = λ v. if (if v6 then v else not v) then update (s.table v) i l else s.table v;
}

abbrev pub new_entry : ℕ → ℕ → ℕ → Entry
new_entry now net ip = record {
  last_time_ns = now;
  tokens = token_max - packet_cost;
  ip = ip;
  net = net;
}

-- The part below the lookup: `alloc` is whether kmem_cache_alloc gives memory.
unfoldable pub add_entry :
    (alloc : Bool) (now net ip : ℕ) (v6 : Bool) (i : ℕ) → Ratelimiter → Bool × Ratelimiter
add_entry alloc now net ip v6 i s =
    if ltb s.max_entries (s.total_entries + 1)
    then (false, s)
    else if not alloc
    then (false, s)
    else (
      true,
      (let t = set_bucket v6 i (new_entry now net ip ∷ s.table v6 i) s in
          record t { total_entries = s.total_entries + 1 }),
    )

unfoldable pub allow_in :
    (alloc : Bool) (now net ip : ℕ) (v6 : Bool) (i : ℕ) → Ratelimiter → Bool × Ratelimiter
unfolding search_bucket add_entry
allow_in alloc now net ip v6 i s = elim (search_bucket now net ip (s.table v6 i)) [
  | none ↦ add_entry alloc now net ip v6 i s
  | some (ret, l) ↦ (ret, set_bucket v6 i l s)
]

-- `now - entry->last_time_ns > NSEC_PER_SEC`, or all entries if there is no work.
abbrev pub is_collected : Bool → ℕ → Entry → Bool
is_collected all now e = all || ltb nsec_per_sec (sub64 now e.last_time_ns)

unfoldable pub gc_bucket : Bool → ℕ → List Entry → List Entry
gc_bucket all now [] = []
gc_bucket all now (e ∷ l) =
    let rest = gc_bucket all now l in if is_collected all now e then rest else e ∷ rest

-- One round of the loop over the tables.
unfoldable pub gc_index : Bool → ℕ → ℕ → Ratelimiter → Ratelimiter
unfolding gc_bucket
gc_index all now i s =
    let v4 = gc_bucket all now (s.table false i) in
    let v6 = gc_bucket all now (s.table true i) in
    let t = set_bucket true i v6 (set_bucket false i v4 s) in
    record t {
      dying =
          s.dying + (length (s.table false i) - length v4) + (length (s.table true i) - length v6);
    }

-- The loop, with `n` rounds left.
unfoldable pub gc_rounds : Bool → ℕ → (n i : ℕ) → Ratelimiter → Ratelimiter
unfolding gc_index
gc_rounds all now zero i s = s
gc_rounds all now (suc n) i s = gc_rounds all now n (i + 1) (gc_index all now i s)

unfoldable pub gc_entries : Bool → ℕ → Ratelimiter → Ratelimiter
unfolding gc_rounds
gc_entries all now s = gc_rounds all now s.table_size 0 s

unfoldable pub entry_free : Ratelimiter → Ratelimiter
entry_free s = record s { total_entries = s.total_entries - 1; dying = s.dying - 1 }

-- hsiphash_2u32 and hsiphash_3u32, with the key of this boot.
module _ (hsiphash_2u32 : ℕ → ℕ → ℕ) (hsiphash_3u32 : ℕ → ℕ → ℕ → ℕ) where
  -- table_size is a power of two, so its mask is a remainder.
  abbrev pub bucket_v4 : ℕ → ℕ → ℕ → ℕ
  bucket_v4 size net ip = hsiphash_2u32 (net % 2 ^ 32) (ip % 2 ^ 32) % size

  abbrev pub bucket_v6 : ℕ → ℕ → ℕ → ℕ
  bucket_v6 size net ip = hsiphash_3u32 (net % 2 ^ 32) (ip / 2 ^ 32) (ip % 2 ^ 32) % size

  unfoldable pub ratelimiter_allow :
      (alloc : Bool) (now net : ℕ) → Source → Ratelimiter → Bool × Ratelimiter
  unfolding allow_in
  ratelimiter_allow alloc now net (ipv4 ip) s =
      allow_in alloc now net ip false (bucket_v4 s.table_size net ip) s
  ratelimiter_allow alloc now net (ipv6 ip) s =
      allow_in alloc now net ip true (bucket_v6 s.table_size net ip) s
  ratelimiter_allow alloc now net other s = (false, s)
