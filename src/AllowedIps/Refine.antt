-- ===== src/AllowedIps/Refine.antt =====
-- The two tries against the abstract table: a peer for each prefix of each family.
use wireguard_receive_path.Prelude.{
  ℕ, ◌≡◌, Bool, ltb, ◌&&◌, if◌then◌else◌, Option, none, some, List, [], ◌∷◌, arith, refl,
  Bool-cases, inl, inr, ap, ◌∙◌,
}
use wireguard_receive_path.AllowedIps.{
  Key, Trie, place, Error, enomem, Result, done, failed, left, code, add, remove, is_peer, Table,
  init, lookup, Header, ipv4, ipv6, other, lookup_packet, insert_v4, insert_v6, remove_v4,
  remove_v6,
}
use wireguard_receive_path.AllowedIps.Shape.{IsTrie, exact, exact-nil, or_else-none, same_prefix}
use wireguard_receive_path.AllowedIps.Add.{Placed}
use wireguard_receive_path.AllowedIps.Place.{place-Placed}
use wireguard_receive_path.AllowedIps.Remove.{take_from-Removed}
use wireguard_receive_path.AllowedIps.Longest.{longest, longest_cong, find_node-longest}

pub data Call : Type 0 where
  insert4 insert6 : (alloc : Bool × Bool) → Key → (cidr : ℕ) → Option ℕ → Call
  remove4 remove6 : Key → (cidr peer : ℕ) → Call

abbrev pub run_call : Call → Table → Option Error × Table
run_call (insert4 alloc ip cidr peer) t = insert_v4 alloc ip cidr peer t
run_call (insert6 alloc ip cidr peer) t = insert_v6 alloc ip cidr peer t
run_call (remove4 ip cidr peer) t = remove_v4 ip cidr peer t
run_call (remove6 ip cidr peer) t = remove_v6 ip cidr peer t

-- A sequence of calls: what each answers, and the table after all.
unfoldable pub run_calls : List Call → Table → List (Option Error) × Table
run_calls [] t = ([], t)
run_calls (c ∷ cs) t =
    let now = run_call c t in let rest = run_calls cs now.1 in (now.0 ∷ rest.0, rest.1)

abbrev pub Prefixes : Type 0
Prefixes = Key → ℕ → Option ℕ

-- What a call that answers 0 does to the prefixes of its family.
abbrev pub inserted : (bits : ℕ) → Key → (cidr : ℕ) → Option ℕ → Option Error → Prefixes → Prefixes
inserted bits key cidr peer (some e) f = f
inserted bits key cidr none none f = f
inserted bits key cidr (some p) none f =
    λ k i. if same_prefix bits cidr key i k then some p else f k i

abbrev pub removed : (bits : ℕ) → Key → (cidr peer : ℕ) → Option Error → Prefixes → Prefixes
removed bits key cidr peer (some e) f = f
removed bits key cidr peer none f =
    λ k i. if same_prefix bits cidr key i k && is_peer (f key cidr) peer then none else f k i

abbrev pub Abstract : Type 0
Abstract = Prefixes × Prefixes

abbrev pub apply : Call → Option Error → Abstract → Abstract
apply (insert4 alloc ip cidr peer) answer (four, six) = (inserted 32 ip cidr peer answer four, six)
apply (insert6 alloc ip cidr peer) answer (four, six) = (four, inserted 128 ip cidr peer answer six)
apply (remove4 ip cidr peer) answer (four, six) = (removed 32 ip cidr peer answer four, six)
apply (remove6 ip cidr peer) answer (four, six) = (four, removed 128 ip cidr peer answer six)

-- The abstract table after a sequence of calls with their answers.
unfoldable pub apply_all : List Call → List (Option Error) → Abstract → Abstract
apply_all [] xs a = a
apply_all (c ∷ cs) [] a = a
apply_all (c ∷ cs) (x ∷ xs) a = apply_all cs xs (apply c x a)

abbrev pub empty : Abstract
empty = ((λ k i. none), (λ k i. none))

-- The peer of the longest prefix.
abbrev pub longest_match : Abstract → Header → Option ℕ
longest_match (four, six) (ipv4 ip) = longest (four ip) 32
longest_match (four, six) (ipv6 ip) = longest (six ip) 128
longest_match a other = none

abbrev Tracks : (bits : ℕ) → Trie → Prefixes → Type 0
Tracks bits t f = IsTrie bits t × ((k : Key) (i : ℕ) → exact bits k i t ≡ f k i)

abbrev TracksBoth : Table → Abstract → Type 0
TracksBoth t (four, six) = Tracks 32 t.root4 four × Tracks 128 t.root6 six

place-Tracks :
    (bits : ℕ) (key : Key) (cidr p : ℕ) (t : Trie) (f : Prefixes) (r : Option Trie)
    → Tracks bits t f
    → Placed bits key cidr p t r
    → let res : Result = elim r [ none ↦ failed enomem t | some t' ↦ done t' ] in
      Tracks bits (left res) (inserted bits key cidr (some p) (code res) f)
place-Tracks bits key cidr p t f none h placed = h
place-Tracks bits key cidr p t f (some t') (w, eq) (w', eq', fits) =
    (w', (λ k i. eq' k i ∙ ap (λ x. if same_prefix bits cidr key i k then some p else x) (eq k i)))

add-Tracks :
    (alloc : Bool × Bool) (bits : ℕ) (key : Key) (cidr : ℕ) (peer : Option ℕ) (t : Trie)
    (f : Prefixes)
    → Tracks bits t f
    → Tracks bits
        (left (add alloc bits key cidr peer t))
        (inserted bits key cidr peer (code (add alloc bits key cidr peer t)) f)
unfolding add
add-Tracks alloc bits key cidr none t f h = h
add-Tracks (new, above) bits key cidr (some p) t f h = elim (Bool-cases (ltb bits cidr)) [
  | inl long ↦ simp (long) h
  | inr short ↦ simp (short) (
      place-Tracks bits key cidr p t f (place (new, above) bits key cidr p t) h
        (place-Placed bits key cidr p (ground (arith, short)) new above t h.0))
]

remove-Tracks :
    (bits : ℕ) (key : Key) (cidr peer : ℕ) (t : Trie) (f : Prefixes)
    → Tracks bits t f
    → Tracks bits
        (left (remove bits key cidr peer t))
        (removed bits key cidr peer (code (remove bits key cidr peer t)) f)
unfolding remove
remove-Tracks bits key cidr peer t f (w, eq) = elim (Bool-cases (ltb bits cidr)) [
  | inl long ↦ simp (long) (w, eq)
  | inr short ↦
      let r = take_from-Removed bits key cidr peer (ground (arith, short)) t w in
      simp (short) (r.0, (λ k i. r.1 k i ∙ rw (eq k i, eq key cidr) refl))
]

find_node-Tracks :
    (bits : ℕ) (t : Trie) (f : Prefixes) (ip : Key)
    → Tracks bits t f
    → lookup t bits ip ≡ longest (f ip) bits
unfolding lookup
find_node-Tracks bits t f ip (w, eq) =
    find_node-longest bits ip t none w
    ∙ or_else-none (longest (λ c. exact bits ip c t) bits)
    ∙ longest_cong (λ c. exact bits ip c t) (f ip) (λ c. eq ip c) bits

run_call-TracksBoth :
    (c : Call) (t : Table) (a : Abstract)
    → TracksBoth t a
    → TracksBoth (run_call c t).1 (apply c (run_call c t).0 a)
unfolding insert_v4 insert_v6 remove_v4 remove_v6
run_call-TracksBoth (insert4 alloc ip cidr peer) t (four, six) (h4, h6) =
    (add-Tracks alloc 32 ip cidr peer t.root4 four h4, h6)
run_call-TracksBoth (insert6 alloc ip cidr peer) t (four, six) (h4, h6) =
    (h4, add-Tracks alloc 128 ip cidr peer t.root6 six h6)
run_call-TracksBoth (remove4 ip cidr peer) t (four, six) (h4, h6) =
    (remove-Tracks 32 ip cidr peer t.root4 four h4, h6)
run_call-TracksBoth (remove6 ip cidr peer) t (four, six) (h4, h6) =
    (h4, remove-Tracks 128 ip cidr peer t.root6 six h6)

run_calls-TracksBoth :
    (cs : List Call) (t : Table) (a : Abstract)
    → TracksBoth t a
    → TracksBoth (run_calls cs t).1 (apply_all cs (run_calls cs t).0 a)
unfolding run_calls apply_all
run_calls-TracksBoth [] t a h = h
run_calls-TracksBoth (c ∷ cs) t a h =
    run_calls-TracksBoth cs (run_call c t).1 (apply c (run_call c t).0 a)
      (run_call-TracksBoth c t a h)

lookup_packet-Tracks :
    (t : Table) (a : Abstract) (p : Header) → TracksBoth t a → lookup_packet t p ≡ longest_match a p
unfolding lookup_packet
lookup_packet-Tracks t (four, six) (ipv4 ip) (h4, h6) = find_node-Tracks 32 t.root4 four ip h4
lookup_packet-Tracks t (four, six) (ipv6 ip) (h4, h6) = find_node-Tracks 128 t.root6 six ip h6
lookup_packet-Tracks t a other h = refl

-- After any sequence of insertions and removals from the empty table, with any allocations that fail,
-- the peer that a packet's address belongs to is the one of the longest prefix of that address in the
-- abstract table, to which each call that answered 0 has added, or from which it has taken, one prefix
-- of its family, and on which no call with an error had any effect.
pub run_calls-lookup :
    (cs : List Call) (p : Header)
    → lookup_packet (run_calls cs init).1 p
      ≡ longest_match (apply_all cs (run_calls cs init).0 empty) p
unfolding init
run_calls-lookup cs p =
    lookup_packet-Tracks (run_calls cs init).1 (apply_all cs (run_calls cs init).0 empty) p (
      run_calls-TracksBoth cs init empty
        ((tt, (λ k i. exact-nil 32 k i)), (tt, (λ k i. exact-nil 128 k i))))
