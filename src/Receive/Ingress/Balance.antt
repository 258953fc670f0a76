-- ===== src/Receive/Ingress/Balance.antt =====
-- Every datagram has one owner after wg_packet_receive, and the references fit the queues.
use wireguard_receive_path.Prelude.{
  ℕ, ◌+◌, ◌≤◌, ◌≡◌, false, ◌==◌, not, if◌then◌else◌, List, [], ◌∷◌, ◌++◌, length, length-append,
  update, update_self, update_ne, arith, Bool-cases, inl, inr, refl, ap, ==_iff,
}
use wireguard_receive_path.PrevQueue.{max_queued_packets}
use wireguard_receive_path.Receive.Ingress.{
  max_queued_incoming_handshakes, Job, Device, Answers, kfree, produces, receive_handshake,
  take_peer, put_peer, take_keypair, put_keypair, queue_packet,
}

-- How many packets of a queue hold the keypair.
abbrev pub holders : ℕ → List Job → ℕ
holders k [] = 0
holders k (j ∷ l) = (if j.keypair == k then 1 else 0) + holders k l

holders-append : (k : ℕ) (l m : List Job) → holders k (l ++ m) ≡ holders k l + holders k m
holders-append k [] m = omega arith
holders-append k (j ∷ l) m = omega (arith, holders-append k l m)

-- Beyond `keys` and `peers`, the references that others hold, a keypair has one for each queued packet
-- that it decrypts, and a peer one for each packet in its queue.
pub record IsBalanced (owner keys peers : ℕ → ℕ) (d : Device) : Type 0 where
  pub keypair_refs : (k : ℕ) → d.keypair_refs k ≡ keys k + holders k (d.rx_queue (owner k))
  pub peer_refs : (p : ℕ) → d.peer_refs p ≡ peers p + length (d.rx_queue p)
  pub bounded : (p : ℕ) → length (d.rx_queue p) ≤ max_queued_packets
  pub ring_bounded : length d.handshake_ring ≤ max_queued_incoming_handshakes
  pub ring_counted : length d.handshake_ring ≤ d.handshake_queue_len

-- Where a datagram went, and where it did not.
pub data IsOwned (owner : ℕ → ℕ) (skb : ℕ) (d d' : Device) : Type 0 where
  dropped :
      d'.freed ≡ skb ∷ d.freed
      → d'.handshake_ring ≡ d.handshake_ring
      → ((p : ℕ) → d'.rx_queue p ≡ d.rx_queue p)
      → IsOwned owner skb d d'
  to_handshake :
      d'.freed ≡ d.freed
      → d'.handshake_ring ≡ d.handshake_ring ++ (skb ∷ [])
      → ((p : ℕ) → d'.rx_queue p ≡ d.rx_queue p)
      → IsOwned owner skb d d'
  to_peer :
      (k : ℕ)
      → d'.freed ≡ d.freed
      → d'.handshake_ring ≡ d.handshake_ring
      → d'.rx_queue (owner k) ≡ d.rx_queue (owner k) ++ (record { skb = skb; keypair = k } ∷ [])
      → ((p : ℕ) → (owner k == p) ≡ false → d'.rx_queue p ≡ d.rx_queue p)
      → IsOwned owner skb d d'

pub record IsReceived (owner keys peers : ℕ → ℕ) (skb : ℕ) (d d' : Device) : Type 0 where
  pub owned : IsOwned owner skb d d'
  pub balanced : IsBalanced owner keys peers d'

module _ (owner keys peers : ℕ → ℕ) (d : Device) (b : IsBalanced owner keys peers d) where
  pub dropped-IsReceived : (skb : ℕ) → IsReceived owner keys peers skb d (kfree skb d)
  dropped-IsReceived skb = record {
    owned = dropped refl refl (λ p. refl);
    balanced = record {
      keypair_refs = b.keypair_refs;
      peer_refs = b.peer_refs;
      bounded = b.bounded;
      ring_bounded = b.ring_bounded;
      ring_counted = b.ring_counted;
    };
  }

  pub receive_handshake-IsReceived :
      (a : Answers) (skb : ℕ) → IsReceived owner keys peers skb d (receive_handshake a skb d)
  unfolding receive_handshake
  receive_handshake-IsReceived a skb = elim (Bool-cases (not a.rng_is_initialized)) [
    | inl e ↦ simp e (dropped-IsReceived skb)
    | inr e ↦ elim (Bool-cases (not (produces a d))) [
      | inl e' ↦ simp (e, e') (dropped-IsReceived skb)
      | inr e' ↦
          simp (e, e')
            (record {
              owned = to_handshake refl refl (λ p. refl);
              balanced = record {
                keypair_refs = b.keypair_refs;
                peer_refs = b.peer_refs;
                bounded = b.bounded;
                ring_bounded = rw (length-append d.handshake_ring (skb ∷ [])) (ground (arith, e'));
                ring_counted =
                    rw (length-append d.handshake_ring (skb ∷ [])) (omega (arith, b.ring_counted));
              };
            })
    ]
  ]

  -- The references that were taken are given back.
  pub undone-IsReceived :
      (skb k : ℕ)
      → IsReceived owner keys peers skb d (
          kfree skb
            (put_peer owner k (put_keypair owner k (take_keypair owner k (take_peer owner k d)))))
  undone-IsReceived skb k = record {
    owned = dropped refl refl (λ p. refl);
    balanced = record {
      keypair_refs = λ j. ground (arith, b.keypair_refs j);
      peer_refs = λ p. ground (arith, b.peer_refs p);
      bounded = b.bounded;
      ring_bounded = b.ring_bounded;
      ring_counted = b.ring_counted;
    };
  }

  pub unfound-IsReceived :
      (skb k : ℕ)
      → IsReceived owner keys peers skb d (kfree skb (put_peer owner k (take_peer owner k d)))
  unfound-IsReceived skb k = record {
    owned = dropped refl refl (λ p. refl);
    balanced = record {
      keypair_refs = b.keypair_refs;
      peer_refs = λ p. ground (arith, b.peer_refs p);
      bounded = b.bounded;
      ring_bounded = b.ring_bounded;
      ring_counted = b.ring_counted;
    };
  }

  module _ (a : Answers) (skb k : ℕ)
      (room : (length (d.rx_queue (owner k)) == max_queued_packets) ≡ false) where
    abbrev job : List Job
    job = record { skb = skb; keypair = k } ∷ []

    abbrev queues : ℕ → List Job
    queues = update d.rx_queue (owner k) (d.rx_queue (owner k) ++ job)

    differs : (j : ℕ) → (owner k == owner j) ≡ false → (k == j) ≡ false
    differs j e = elim (Bool-cases (k == j)) [
      | inr e' ↦ e'
      | inl e' ↦ absurd (cc (e, (==_iff (owner k) (owner j)).1 (ap owner ((==_iff k j).0 e'))))
    ]

    queues-holders :
        (j : ℕ)
        → holders j (queues (owner j))
          ≡ holders j (d.rx_queue (owner j)) + (if k == j then 1 else 0)
    queues-holders j = elim (Bool-cases (owner k == owner j)) [
      | inl e ↦
          let same : owner k ≡ owner j = (==_iff (owner k) (owner j)).0 e in
          rw (← same, update_self d.rx_queue (owner k) (d.rx_queue (owner k) ++ job))
            (omega (arith, holders-append j (d.rx_queue (owner k)) job))
      | inr e ↦
          rw (update_ne d.rx_queue (owner k) (d.rx_queue (owner k) ++ job) (owner j) e, differs j e)
            (omega arith)
    ]

    queues-length :
        (p : ℕ) → length (queues p) ≡ length (d.rx_queue p) + (if owner k == p then 1 else 0)
    queues-length p = elim (Bool-cases (owner k == p)) [
      | inl e ↦
          rw
            (
              ← (==_iff (owner k) p).0 e,
              update_self d.rx_queue (owner k) (d.rx_queue (owner k) ++ job),
            )
            (ground (arith, length-append (d.rx_queue (owner k)) job))
      | inr e ↦
          rw (update_ne d.rx_queue (owner k) (d.rx_queue (owner k) ++ job) p e, e) (omega arith)
    ]

    queues-bounded : (p : ℕ) → length (queues p) ≤ max_queued_packets
    queues-bounded p = elim (Bool-cases (owner k == p)) [
      | inl e ↦
          rw
            (
              ← (==_iff (owner k) p).0 e,
              update_self d.rx_queue (owner k) (d.rx_queue (owner k) ++ job),
              length-append (d.rx_queue (owner k)) job,
            )
            (ground (arith, b.bounded (owner k), room))
      | inr e ↦ rw (update_ne d.rx_queue (owner k) (d.rx_queue (owner k) ++ job) p e) (b.bounded p)
    ]

    pub queued-IsReceived :
        IsReceived owner keys peers skb d
          (queue_packet owner a skb k (take_keypair owner k (take_peer owner k d)))
    queued-IsReceived = elim (Bool-cases a.decrypt_room) [
      | inl e ↦ simp e (record { owned = to_queue; balanced = kept })
      | inr e ↦ simp e (record { owned = to_queue; balanced = kept })
    ]
      where
        to_queue :
            {ring completed : List ℕ}
            → IsOwned owner skb d (record d {
              rx_queue = queues;
              keypair_refs = update d.keypair_refs k (d.keypair_refs k + 1);
              peer_refs = update d.peer_refs (owner k) (d.peer_refs (owner k) + 1);
              decrypt_ring = ring;
              completed = completed;
            })
        to_queue =
            to_peer k refl refl (update_self d.rx_queue (owner k) (d.rx_queue (owner k) ++ job))
              (λ p e. update_ne d.rx_queue (owner k) (d.rx_queue (owner k) ++ job) p e)

        kept :
            {ring completed : List ℕ}
            → IsBalanced owner keys peers (record d {
              rx_queue = queues;
              keypair_refs = update d.keypair_refs k (d.keypair_refs k + 1);
              peer_refs = update d.peer_refs (owner k) (d.peer_refs (owner k) + 1);
              decrypt_ring = ring;
              completed = completed;
            })
        kept = record {
          keypair_refs = λ j. rw (queues-holders j) (ground (arith, b.keypair_refs j));
          peer_refs = λ p. rw (queues-length p) (ground (arith, b.peer_refs p));
          bounded = λ p. queues-bounded p;
          ring_bounded = b.ring_bounded;
          ring_counted = b.ring_counted;
        }
