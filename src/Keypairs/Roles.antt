-- ===== src/Keypairs/Roles.antt =====
-- Which keypair a peer may send with.
use wireguard_receive_path.Prelude.{
  ℕ, ◌≡◌, Bool, true, false, Option, none, some, ◌==◌, arith, update, inl, inr, Bool-cases, refl,
  ◌||◌, ◌∙◌, ◌&&◌, not,
}
use wireguard_receive_path.Keypairs.{
  Keypair, Keypairs, keypair_put, keypair_get, keypairs_clear, expire_current_peer_keypairs,
  keypair_create, received_with_keypair, add_new_keypair, add_as_initiator, is_slot, keypair_hash,
  stop_sending,
}
use wireguard_receive_path.Keypairs.Session.{HandshakeState, is_finished, with_made, add_session}
use wireguard_receive_path.Keypairs.Step.{
  Users, Step, begins, hashes, receives, clears, expires, gets, puts, Reach, here, next, IsNew,
}
use wireguard_receive_path.Keypairs.Counted.{slots, IsCounted, AllCounted}
use wireguard_receive_path.Keypairs.References.{Reach-IsCounted}

-- A keypair in the slot that sends is one this side asked for, or the other side has used it; one in
-- the slot `next` is not one this side asked for.
pub record IsSafe (s : Keypairs) (confirmed : ℕ → Bool) (k : ℕ) : Type 0 where
  pub sends :
      is_slot s.current_keypair k ≡ true → ((s.pairs k).i_am_the_initiator || confirmed k) ≡ true
  pub waits : is_slot s.next_keypair k ≡ true → (s.pairs k).i_am_the_initiator ≡ false

keypair_put-initiator :
    (o : Option ℕ) (b : Bool) (m : ℕ → Keypair) (k : ℕ)
    → (keypair_put o b m k).i_am_the_initiator ≡ (m k).i_am_the_initiator
keypair_put-initiator none b m k = refl
keypair_put-initiator (some j) b m k = ground (arith)

stop_sending-initiator :
    (o : Option ℕ) (m : ℕ → Keypair) (k : ℕ)
    → (stop_sending o m k).i_am_the_initiator ≡ (m k).i_am_the_initiator
stop_sending-initiator none m k = refl
stop_sending-initiator (some j) m k = ground (arith)

module _ (s : Keypairs) (confirmed : ℕ → Bool) (k : ℕ) (h : IsSafe s confirmed k) where
  received-IsSafe : (j : ℕ) → IsSafe (received_with_keypair s j).1 (update confirmed j true) k
  unfolding received_with_keypair
  received-IsSafe j = elim (Bool-cases (is_slot s.next_keypair j)) [
    | inr e ↦ simp e (record { sends = λ c. ground (arith, h.sends c); waits = h.waits })
    | inl e ↦ simp e (record { sends = λ c. ground (arith); waits = λ c. absurd (cc) })
  ]

  expire-IsSafe : IsSafe (expire_current_peer_keypairs s) confirmed k
  unfolding expire_current_peer_keypairs
  expire-IsSafe = record {
    sends = λ c. ground (arith, h.sends c, kept);
    waits = λ c. ground (arith, h.waits c, kept);
  }
    where
      kept :
          (stop_sending s.current_keypair
            (stop_sending s.next_keypair s.pairs)
            k).i_am_the_initiator
          ≡ (s.pairs k).i_am_the_initiator
      kept =
          stop_sending-initiator s.current_keypair (stop_sending s.next_keypair s.pairs) k
          ∙ stop_sending-initiator s.next_keypair s.pairs k

keypair_put-put-initiator :
    (o p : Option ℕ) (b c : Bool) (m : ℕ → Keypair) (k : ℕ)
    → (keypair_put o b (keypair_put p c m) k).i_am_the_initiator ≡ (m k).i_am_the_initiator
keypair_put-put-initiator o p b c m k =
    keypair_put-initiator o b (keypair_put p c m) k ∙ keypair_put-initiator p c m k

-- The state in which add_new_keypair works: the new keypair stands in no slot yet.
module _ (s : Keypairs) (confirmed : ℕ → Bool) (new k : ℕ)
    (h : (new == k) ≡ false → IsSafe s confirmed k) (out : slots s new ≡ 0) where
  initiator-IsSafe :
      (o : Option ℕ)
      → s.next_keypair ≡ o
      → (s.pairs new).i_am_the_initiator ≡ true
      → IsSafe (add_as_initiator s new o) confirmed k
  initiator-IsSafe none e i = record {
    sends = λ c. ground (arith, i, keypair_put-initiator s.previous_keypair true s.pairs k);
    waits = λ c. absurd (cc);
  }
  initiator-IsSafe (some j) e i = record {
    sends = λ c. ground (
      arith,
      i,
      keypair_put-put-initiator s.previous_keypair s.current_keypair true true s.pairs k,
    );
    waits = λ c. absurd (cc);
  }

  responder-IsSafe :
      (s.pairs new).i_am_the_initiator ≡ false
      → IsSafe
          (record s {
            next_keypair = some new;
            previous_keypair = none;
            pairs = keypair_put s.previous_keypair true (keypair_put s.next_keypair true s.pairs);
          })
          confirmed
          k
  responder-IsSafe i = record {
    sends = λ c. elim (Bool-cases (new == k)) [
      | inl e ↦ ground (arith, e, c, out)
      | inr e ↦ ground (arith, kept, (h e).sends c)
    ];
    waits = λ c. ground (arith, i, c, kept);
  }
    where
      kept :
          (keypair_put s.previous_keypair true
            (keypair_put s.next_keypair true s.pairs)
            k).i_am_the_initiator
          ≡ (s.pairs k).i_am_the_initiator
      kept = keypair_put-put-initiator s.previous_keypair s.next_keypair true true s.pairs k

  add-IsSafe : IsSafe (add_new_keypair s new) confirmed k
  unfolding add_new_keypair
  add-IsSafe = elim (Bool-cases (s.pairs new).i_am_the_initiator) [
    | inl i ↦ simp i (initiator-IsSafe s.next_keypair refl i)
    | inr i ↦ simp i (responder-IsSafe i)
  ]

keypair_hash-IsSafe :
    (s : Keypairs) (confirmed : ℕ → Bool) (handshake_hashed : Bool) (new k : ℕ)
    → IsSafe s confirmed k
    → IsSafe (keypair_hash handshake_hashed new s) confirmed k
unfolding keypair_hash
keypair_hash-IsSafe s confirmed handshake_hashed new k h = elim (Bool-cases handshake_hashed) [
  | inr e ↦ simp e h
  | inl e ↦
      simp e
        (record { sends = λ c. ground (arith, h.sends c); waits = λ c. ground (arith, h.waits c) })
]

-- A keypair that is not allocated stands in no slot.
dead-slots :
    {kp : Keypair} {slotted held : ℕ} {late : Bool}
    → IsCounted kp slotted held late
    → kp.live ≡ false
    → slotted ≡ 0
dead-slots c dead = ground (arith, c.counted, c.allocated)

module _ (s : Keypairs) (confirmed : ℕ → Bool) (new : ℕ) (h : (k : ℕ) → IsSafe s confirmed k)
    (out : slots s new ≡ 0) where
  unmade-IsSafe : (k : ℕ) → IsSafe s (update confirmed new false) k
  unmade-IsSafe k = record {
    sends = λ c. elim (Bool-cases (new == k)) [
      | inl e ↦ ground (arith, e, c, out)
      | inr e ↦ ground (arith, e, (h k).sends c)
    ];
    waits = (h k).waits;
  }

  made-IsSafe :
      (initiator : Bool) (now k : ℕ)
      → IsSafe (add_new_keypair (with_made new initiator now s) new) (update confirmed new false) k
  unfolding with_made keypair_create
  made-IsSafe initiator now k =
      add-IsSafe _ (update confirmed new false) new k
        (λ e. record {
          sends = λ c. ground (arith, e, (h k).sends c);
          waits = λ c. ground (arith, e, (h k).waits c);
        })
        out

  add_session-IsSafe :
      (hs : HandshakeState) (is_dead : Bool) (now k : ℕ)
      → IsSafe (add_session hs is_dead now new s).1 (update confirmed new false) k
  unfolding add_session
  add_session-IsSafe hs is_dead now k = elim (Bool-cases (is_finished hs && not is_dead)) [
    | inr e ↦ simp e (unmade-IsSafe k)
    | inl e ↦ simp e (made-IsSafe _ now k)
  ]

Step-IsSafe :
    {u v : Users}
    → Step u v
    → AllCounted u.keypairs u.held u.late
    → ((k : ℕ) → IsSafe u.keypairs u.confirmed k)
    → (k : ℕ) → IsSafe v.keypairs v.confirmed k
unfolding keypair_get keypairs_clear
Step-IsSafe {u} (begins hs is_dead now new dead free) c h k =
    add_session-IsSafe u.keypairs u.confirmed new h (dead-slots (c new) dead) hs is_dead now k
Step-IsSafe {u} (hashes handshake_hashed j waits) c h k =
    keypair_hash-IsSafe u.keypairs u.confirmed handshake_hashed j k (h k)
Step-IsSafe {u} (receives j has) c h k = received-IsSafe u.keypairs u.confirmed k (h k) j
Step-IsSafe {u} clears c h k = record { sends = λ e. absurd (cc); waits = λ e. absurd (cc) }
Step-IsSafe {u} expires c h k = expire-IsSafe u.keypairs u.confirmed k (h k)
Step-IsSafe {u} (gets j) c h k = record {
  sends = λ e. ground (arith, (h k).sends e);
  waits = λ e. ground (arith, (h k).waits e);
}
Step-IsSafe {u} (puts j has) c h k = record {
  sends = λ e. ground (arith, (h k).sends e);
  waits = λ e. ground (arith, (h k).waits e);
}

-- From a new peer, in every reachable state: the keypair in the slot current_keypair, with which
-- packets are sent, was made as the initiator, or an authentic packet was received with it since it
-- was made; and a keypair in the slot next_keypair was made as the responder.
pub Reach-IsSafe : {u v : Users} → IsNew u → Reach u v → (k : ℕ) → IsSafe v.keypairs v.confirmed k
Reach-IsSafe {u} n here k = record {
  sends = λ e. ground (arith, n.no_current, e);
  waits = λ e. ground (arith, n.no_next, e);
}
Reach-IsSafe n (next r st) k = Step-IsSafe st (Reach-IsCounted n r) (Reach-IsSafe n r) k
