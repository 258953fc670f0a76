-- ===== src/Keypairs/References.antt =====
-- Every step of a peer's threads keeps the references counted.
use wireguard_receive_path.Prelude.{
  ℕ, ◌+◌, ◌-◌, ◌<◌, ◌≡◌, Bool, false, not, ◌&&◌, if◌then◌else◌, none, some, arith, update, inl, inr,
  Bool-cases,
}
use wireguard_receive_path.Keypairs.{Keypairs, keypair_put, keypair_get}
use wireguard_receive_path.Keypairs.Session.{HandshakeState, is_finished, with_made, add_session}
use wireguard_receive_path.Keypairs.Step.{
  Users, Step, begins, hashes, receives, clears, expires, gets, puts, Reach, here, next, IsNew,
}
use wireguard_receive_path.Keypairs.Counted.{
  slots, IsCounted, AllCounted, MadeCounted, add_new_keypair-IsCounted, keypair_hash-IsCounted,
  keypairs_clear-IsCounted, received-IsCounted, expire-IsCounted,
}

-- A new keypair takes an address that no slot names, and is not late.
pub made-IsCounted :
    (s : Keypairs) (held : ℕ → ℕ) (late : ℕ → Bool) (new : ℕ) (initiator : Bool) (now : ℕ)
    → AllCounted s held late
    → (s.pairs new).live ≡ false
    → MadeCounted (with_made new initiator now s) held (update late new false) new
unfolding with_made
made-IsCounted s held late new initiator now h dead k = record {
  counted = ground (arith, (h k).counted, (h k).allocated);
  single = ground (arith, (h k).counted, (h k).allocated, (h k).single);
  findable = ground (arith, (h k).findable);
  allocated = ground (arith, (h k).allocated);
}

add_session-IsCounted :
    (h : HandshakeState) (is_dead : Bool) (now new : ℕ) (s : Keypairs) (held : ℕ → ℕ)
    (late : ℕ → Bool)
    → AllCounted s held late
    → (s.pairs new).live ≡ false
    → AllCounted
        (add_session h is_dead now new s).1
        held
        (if (add_session h is_dead now new s).0 then update late new false else late)
unfolding add_session
add_session-IsCounted h is_dead now new s held late c dead =
    elim (Bool-cases (is_finished h && not is_dead)) [
      | inr e ↦ simp e c
      | inl e ↦ simp e (
          add_new_keypair-IsCounted _ held (update late new false) new
            (made-IsCounted s held late new _ now c dead))
    ]

keypair_get-IsCounted :
    (s : Keypairs) (held : ℕ → ℕ) (late : ℕ → Bool) (j : ℕ)
    → AllCounted s held late
    → AllCounted
        (record s { pairs = (keypair_get (some j) s.pairs).1 })
        (update held j
          (elim (keypair_get (some j) s.pairs).0 [ none ↦ held j | some _ ↦ held j + 1 ]))
        late
unfolding keypair_get
keypair_get-IsCounted s held late j h k = record {
  counted = ground (arith, (h k).counted);
  single = (h k).single;
  findable = ground (arith, (h k).findable);
  allocated = ground (arith, (h k).allocated);
}

keypair_put-held :
    (s : Keypairs) (held : ℕ → ℕ) (late : ℕ → Bool) (j : ℕ)
    → AllCounted s held late
    → 0 < held j
    → AllCounted
        (record s { pairs = keypair_put (some j) false s.pairs })
        (update held j (held j - 1))
        late
keypair_put-held s held late j h has k = record {
  counted = ground (arith, (h k).counted);
  single = (h k).single;
  findable = ground (arith, (h k).counted, (h k).findable);
  allocated = ground (arith, (h k).counted, (h k).allocated);
}

Step-IsCounted :
    {u v : Users}
    → Step u v
    → AllCounted u.keypairs u.held u.late
    → AllCounted v.keypairs v.held v.late
Step-IsCounted {u} (begins h is_dead now k dead free) c =
    add_session-IsCounted h is_dead now k u.keypairs u.held u.late c dead
Step-IsCounted {u} (hashes handshake_hashed k waits) c =
    keypair_hash-IsCounted u.keypairs u.held u.late handshake_hashed k c
Step-IsCounted {u} (receives k has) c = received-IsCounted u.keypairs u.held u.late c k
Step-IsCounted {u} clears c = keypairs_clear-IsCounted u.keypairs u.held u.late c
Step-IsCounted {u} expires c = expire-IsCounted u.keypairs u.held u.late c
Step-IsCounted {u} (gets k) c = keypair_get-IsCounted u.keypairs u.held u.late k c
Step-IsCounted {u} (puts k has) c = keypair_put-held u.keypairs u.held u.late k c has

IsNew-IsCounted : {u : Users} → IsNew u → AllCounted u.keypairs u.held u.late
IsNew-IsCounted {u} n k = record {
  counted = ground (arith, n.no_current, n.no_previous, n.no_next, n.no_refs k, n.no_held k);
  single = ground (arith, n.no_current, n.no_previous, n.no_next);
  findable = ground (arith, n.no_hashed k);
  allocated = ground (arith, n.no_refs k, n.no_pairs k);
}

-- From a new peer, in every reachable state and for every keypair: its reference count is the number
-- of slots it stands in plus the references that packets and threads hold; it stands in at most one
-- slot; the index hashtable finds it only while it stands in a slot, unless it was in no slot any more
-- when its handshake's thread came from add_new_keypair to wg_index_hashtable_replace; and its memory
-- is allocated exactly as long as a reference is left.
pub Reach-IsCounted :
    {u v : Users}
    → IsNew u
    → Reach u v
    → (k : ℕ) → IsCounted (v.keypairs.pairs k) (slots v.keypairs k) (v.held k) (v.late k)
Reach-IsCounted n here = IsNew-IsCounted n
Reach-IsCounted n (next r st) = Step-IsCounted st (Reach-IsCounted n r)
