-- ===== src/Receive/Ingress/Received.antt =====
-- wg_packet_receive as a whole.
use wireguard_receive_path.Prelude.{ℕ, ◌==◌, Option, none, some, length, Bool-cases, inl, inr}
use wireguard_receive_path.PrevQueue.{max_queued_packets}
use wireguard_receive_path.Receive.Header.{message_data}
use wireguard_receive_path.Receive.Ingress.{
  Device, Datagram, Answers, consume_data, is_handshake, by_type, packet_receive,
}
use wireguard_receive_path.Receive.Ingress.Balance.{
  IsBalanced, IsReceived, dropped-IsReceived, receive_handshake-IsReceived, undone-IsReceived,
  unfound-IsReceived, queued-IsReceived,
}

module _ (owner keys peers : ℕ → ℕ) (d : Device) (b : IsBalanced owner keys peers d)
    (a : Answers) where
  consume_data-IsReceived :
      (skb : ℕ) (entry : Option ℕ)
      → IsReceived owner keys peers skb d (consume_data owner a skb entry d)
  unfolding consume_data
  consume_data-IsReceived skb none = dropped-IsReceived owner keys peers d b skb
  consume_data-IsReceived skb (some k) = elim (Bool-cases (d.keypair_refs k == 0)) [
    | inl e ↦ simp e (unfound-IsReceived owner keys peers d b skb k)
    | inr e ↦ elim (Bool-cases (d.is_dead (owner k))) [
      | inl e' ↦ simp (e, e') (undone-IsReceived owner keys peers d b skb k)
      | inr e' ↦ elim (Bool-cases (length (d.rx_queue (owner k)) == max_queued_packets)) [
        | inl e'' ↦ simp (e, e', e'') (undone-IsReceived owner keys peers d b skb k)
        | inr e'' ↦ simp (e, e', e'') (queued-IsReceived owner keys peers d b a skb k e'')
      ]
    ]
  ]

  by_type-IsReceived :
      (g : Datagram) (type : Option ℕ)
      → IsReceived owner keys peers g.skb d (by_type owner a g type d)
  by_type-IsReceived g none = dropped-IsReceived owner keys peers d b g.skb
  by_type-IsReceived g (some type) = elim (Bool-cases (is_handshake owner type)) [
    | inl e ↦ simp e (receive_handshake-IsReceived owner keys peers d b a g.skb)
    | inr e ↦ elim (Bool-cases (type == message_data)) [
      | inl e' ↦ simp (e, e') (consume_data-IsReceived g.skb g.entry)
      | inr e' ↦ simp (e, e') (dropped-IsReceived owner keys peers d b g.skb)
    ]
  ]

  -- From a device whose references fit its queues, wg_packet_receive frees the datagram, or puts it at
  -- the end of the handshake ring, or at the end of the queue of its keypair's peer, and does exactly
  -- one of these; afterwards every keypair still has one reference for each queued packet that it
  -- decrypts, every peer one for each packet in its queue, beyond those that others hold; no peer's
  -- queue has more than 1024 packets, the handshake ring not more than 4096, and not more than
  -- handshake_queue_len counts.
  pub packet_receive-IsReceived :
      (g : Datagram) → IsReceived owner keys peers g.skb d (packet_receive owner a g d)
  unfolding packet_receive
  packet_receive-IsReceived g = by_type-IsReceived g g.type
