-- ===== src/Receive/Ingress.antt =====
-- wg_packet_receive and wg_packet_consume_data (receive.c), with
-- wg_queue_enqueue_per_device_and_peer (queueing.h): where an arriving datagram goes.
pub mod Balance
pub mod Received
use wireguard_receive_path.Prelude.{
  ℕ, ◌+◌, ◌-◌, ◌≤◌, ◌<◌, ◌≡◌, ◌/◌, Bool, true, false, ltb, leb, ◌==◌, ◌&&◌, ◌||◌, not,
  if◌then◌else◌, Option, none, some, List, [], ◌∷◌, ◌++◌, length, length-append, update,
  update_self, update_ne, arith, Bool-cases, inl, inr, refl, ap, sym, ◌∙◌, ==_iff,
}
use wireguard_receive_path.PrevQueue.{max_queued_packets}
use wireguard_receive_path.Receive.Header.{
  message_initiation, message_response, message_cookie, message_data,
}

abbrev pub max_queued_incoming_handshakes : ℕ
max_queued_incoming_handshakes = 4096

-- A packet of a peer's rx_queue, with the keypair that its packet_cb holds.
pub record Job : Type 0 where
  pub skb : ℕ
  pub keypair : ℕ

-- The device's rings, the queues of its peers, and the references to keypairs and peers. `freed` are
-- the packets given to dev_kfree_skb, `completed` those that were stored as DEAD at once.
pub record Device : Type 0 where
  pub handshake_ring : List ℕ
  pub handshake_queue_len : ℕ
  pub decrypt_ring : List ℕ
  pub rx_queue : ℕ → List Job
  pub keypair_refs : ℕ → ℕ
  pub peer_refs : ℕ → ℕ
  pub is_dead : ℕ → Bool
  pub freed : List ℕ
  pub completed : List ℕ

-- A datagram as prepare_skb_header leaves it; `type` is none where that refused it. `entry` is the
-- keypair that the index hashtable has under key_idx, if its peer could be taken.
pub record Datagram : Type 0 where
  pub skb : ℕ
  pub type : Option ℕ
  pub entry : Option ℕ

-- What the rest of the kernel answers at this moment: whether the random numbers are ready, whether
-- the producer's lock was free, and whether the decryption ring has room.
pub record Answers : Type 0 where
  pub rng_is_initialized : Bool
  pub trylock : Bool
  pub decrypt_room : Bool

abbrev pub kfree : ℕ → Device → Device
kfree skb d = record d { freed = skb ∷ d.freed }

-- __ptr_ring_produce on the handshake ring, which has room for a fixed number.
abbrev pub has_room : Device → Bool
has_room d = ltb (length d.handshake_ring) max_queued_incoming_handshakes

abbrev pub produces : Answers → Device → Bool
produces a d =
    if ltb (max_queued_incoming_handshakes / 2) d.handshake_queue_len
    then a.trylock && has_room d
    else has_room d

unfoldable pub receive_handshake : Answers → ℕ → Device → Device
receive_handshake a skb d =
    if not a.rng_is_initialized
    then kfree skb d
    else if not (produces a d)
    then kfree skb d
    else record d {
      handshake_ring = d.handshake_ring ++ (skb ∷ []);
      handshake_queue_len = d.handshake_queue_len + 1;
    }

-- The peer of a keypair: keypair->entry.peer.
module _ (owner : ℕ → ℕ) where
  abbrev pub take_peer : ℕ → Device → Device
  take_peer k d = record d { peer_refs = update d.peer_refs (owner k) (d.peer_refs (owner k) + 1) }

  abbrev pub put_peer : ℕ → Device → Device
  put_peer k d = record d { peer_refs = update d.peer_refs (owner k) (d.peer_refs (owner k) - 1) }

  abbrev pub take_keypair : ℕ → Device → Device
  take_keypair k d = record d { keypair_refs = update d.keypair_refs k (d.keypair_refs k + 1) }

  abbrev pub put_keypair : ℕ → Device → Device
  put_keypair k d = record d { keypair_refs = update d.keypair_refs k (d.keypair_refs k - 1) }

  -- wg_queue_enqueue_per_device_and_peer, where the peer's queue has room. On -EPIPE the caller stores
  -- the packet's state as DEAD.
  abbrev pub queue_packet : Answers → ℕ → ℕ → Device → Device
  queue_packet a skb k d =
      let queue = d.rx_queue (owner k) ++ (record { skb = skb; keypair = k } ∷ []) in
      let t = record d { rx_queue = update d.rx_queue (owner k) queue } in
      if a.decrypt_room
      then record t { decrypt_ring = t.decrypt_ring ++ (skb ∷ []) }
      else record t { completed = skb ∷ t.completed }

  -- The keypair was found, and a reference to its peer taken.
  abbrev pub consume_with : Answers → ℕ → ℕ → Device → Device
  consume_with a skb k d =
      if d.keypair_refs k == 0
      then kfree skb (put_peer k d)
      else (let t = take_keypair k d in
          if d.is_dead (owner k)
          then kfree skb (put_peer k (put_keypair k t))
          else if length (d.rx_queue (owner k)) == max_queued_packets
          then kfree skb (put_peer k (put_keypair k t))
          else queue_packet a skb k t)

  unfoldable pub consume_data : Answers → ℕ → Option ℕ → Device → Device
  consume_data a skb none d = kfree skb d
  consume_data a skb (some k) d = consume_with a skb k (take_peer k d)

  abbrev pub is_handshake : ℕ → Bool
  is_handshake type =
      (type == message_initiation) || ((type == message_response) || (type == message_cookie))

  abbrev pub by_type : Answers → Datagram → Option ℕ → Device → Device
  by_type a g none d = kfree g.skb d
  by_type a g (some type) d =
      if is_handshake type
      then receive_handshake a g.skb d
      else if type == message_data
      then consume_data a g.skb g.entry d
      else kfree g.skb d

  unfoldable pub packet_receive : Answers → Datagram → Device → Device
  unfolding receive_handshake consume_data
  packet_receive a g d = by_type a g g.type d
