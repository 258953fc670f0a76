-- ===== src/Send.antt =====
-- What a peer sends (linux-source/drivers/net/wireguard/send.c): the staged packets, their nonces and
-- padding, and the handshake initiations that are asked for.
pub mod Padding
pub mod Nonces
pub mod Apart
pub mod Calls
pub mod Rate
mod Tests
use wireguard_receive_path.Prelude.{
  ℕ, zero, suc, ◌+◌, ◌-◌, ◌%◌, ◌/◌, ◌*◌, min, Bool, true, false, not, ltb, leb, ◌==◌, ◌&&◌, ◌||◌,
  if◌then◌else◌, Option, none, some, List, [], ◌∷◌, ◌++◌, length, update, u64, ◌^◌,
}
use wireguard_receive_path.Replay.{reject_after_messages}
use wireguard_receive_path.Cookie.{birthdate_has_expired}

-- A packet: its length, and the mtu in its struct packet_cb
pub record Skb : Type 0 where
  pub len : ℕ
  pub mtu : ℕ

-- Calls of other parts, in order. A message that is sent stands for its codes (Cookie), the calls of
-- the timers and the socket.
pub data Effect : Type 0 where
  -- wg_packet_create_data, for the packets with their nonces
  create_data : (keypair : ℕ) → List (Skb × ℕ) → Effect
  keypair_put : Option ℕ → Effect
  peer_get peer_put : Effect
  packets_dropped : ℕ → Effect
  initiation_sent : (now : ℕ) → Effect
  response_sent : (now : ℕ) → Effect

-- The fields of struct wg_peer, and of its keypairs, that sending reads. `current` is the keypair that
-- wg_noise_keypair_get answers for current_keypair, `next_id` the id that the next keypair will have,
-- and `effects` has the newest call first.
pub record Peer : Type 0 where
  pub staged : List Skb
  pub current : Option ℕ
  pub next_id : ℕ
  pub sending_is_valid : ℕ → Bool
  pub sending_birthdate : ℕ → ℕ
  pub sending_counter : ℕ → ℕ
  pub i_am_the_initiator : ℕ → Bool
  pub is_dead : Bool
  pub last_sent_handshake : ℕ
  pub timer_handshake_attempts : ℕ
  pub transmit_handshake_work : Bool
  pub effects : List Effect

-- REKEY_TIMEOUT, REKEY_AFTER_MESSAGES, REKEY_AFTER_TIME and REJECT_AFTER_TIME
abbrev pub rekey_timeout : ℕ
rekey_timeout = 5

abbrev pub rekey_after_messages : ℕ
rekey_after_messages = 1152921504606846976

abbrev pub rekey_after_time : ℕ
rekey_after_time = 120

abbrev pub reject_after_time : ℕ
reject_after_time = 180

abbrev pub emit : Effect → Peer → Peer
emit e s = record s { effects = e ∷ s.effects }

-- ALIGN(x, MESSAGE_PADDING_MULTIPLE) of an unsigned int
abbrev pub align : ℕ → ℕ
align x = (x + 15) % 2 ^ 32 / 16 * 16

unfoldable pub calculate_skb_padding : Skb → ℕ
calculate_skb_padding skb =
    let last_unit = if ltb skb.mtu skb.len then skb.len % skb.mtu else skb.len in
    let padded_size = min skb.mtu (align last_unit) in
    if skb.mtu == 0
    then (align skb.len + 2 ^ 32 - skb.len) % 2 ^ 32
    else (padded_size + 2 ^ 32 - last_unit) % 2 ^ 32

-- wg_packet_send_handshake_initiation; `created` is what wg_noise_handshake_create_initiation answers,
-- and `later` the clock after it.
unfoldable pub send_handshake_initiation : (now later : ℕ) (created : Bool) → Peer → Peer
send_handshake_initiation now later created s =
    if not (birthdate_has_expired now s.last_sent_handshake rekey_timeout)
    then s
    else if created
    then emit (initiation_sent later) (record s { last_sent_handshake = later })
    else record s { last_sent_handshake = now }

-- wg_packet_handshake_send_worker, once it runs
unfoldable pub handshake_send_worker : (now later : ℕ) (created : Bool) → Peer → Peer
unfolding send_handshake_initiation
handshake_send_worker now later created s =
    emit peer_put
      (send_handshake_initiation now later created (record s { transmit_handshake_work = false }))

-- wg_packet_send_queued_handshake_initiation
unfoldable pub send_queued_handshake_initiation : (now : ℕ) (is_retry : Bool) → Peer → Peer
send_queued_handshake_initiation now is_retry s =
    let t = if is_retry then s else record s { timer_handshake_attempts = 0 } in
    if not (birthdate_has_expired now t.last_sent_handshake rekey_timeout) || t.is_dead
    then t
    else if t.transmit_handshake_work
    then emit peer_put (emit peer_get t)
    else emit peer_get (record t { transmit_handshake_work = true })

-- wg_packet_send_handshake_response; `created` and `begun` are what wg_noise_handshake_create_response
-- and wg_noise_handshake_begin_session answer.
unfoldable pub send_handshake_response : (now later : ℕ) (created begun : Bool) → Peer → Peer
send_handshake_response now later created begun s =
    if created && begun
    then emit (response_sent later) (record s { last_sent_handshake = later })
    else record s { last_sent_handshake = now }

unfoldable pub keep_key_fresh : (now : ℕ) → Peer → Peer
unfolding send_queued_handshake_initiation
keep_key_fresh now s = elim s.current [
  | none ↦ s
  | some k ↦
      if s.sending_is_valid k
        && (ltb rekey_after_messages (s.sending_counter k)
            || (s.i_am_the_initiator k
                && birthdate_has_expired now (s.sending_birthdate k) rekey_after_time))
      then send_queued_handshake_initiation now false s
      else s
]

-- The walk that gives each packet the next nonce, up to one that is too high; and the counter after it.
unfoldable pub assign : List Skb → (counter : ℕ) → Option (List (Skb × ℕ)) × ℕ
assign [] counter = (some [], counter)
assign (p ∷ ps) counter =
    let rest = assign ps (u64 (counter + 1)) in
    if leb reject_after_messages counter
    then (none, u64 (counter + 1))
    else (elim rest.0 [ none ↦ none | some l ↦ some ((p, counter) ∷ l) ], rest.1)

-- out_nokey: the packets go back on the top of the queue, and a handshake is asked for.
unfoldable pub out_nokey : (now : ℕ) → Option ℕ → List Skb → Peer → Peer
unfolding send_queued_handshake_initiation
out_nokey now keypair packets s =
    send_queued_handshake_initiation now false
      (record (emit (keypair_put keypair) s) { staged = packets ++ s.staged })

-- out_invalid
unfoldable pub out_invalid : (now keypair : ℕ) → List Skb → Peer → Peer
unfolding out_nokey
out_invalid now k packets s =
    out_nokey now (some k) packets
      (record s { sending_is_valid = update s.sending_is_valid k false })

-- What follows the walk.
unfoldable pub after_assign :
    (now keypair : ℕ) → List Skb → Option (List (Skb × ℕ)) × ℕ → Peer → Peer
unfolding out_invalid
after_assign now k packets (none, counter) s =
    out_invalid now k packets (record s { sending_counter = update s.sending_counter k counter })
after_assign now k packets (some sent, counter) s =
    emit (create_data k sent)
      (emit peer_get (record s { sending_counter = update s.sending_counter k counter }))

-- wg_packet_send_staged_packets, from the packets that it has taken from the queue
unfoldable pub send_packets : (now : ℕ) → (packets : List Skb) → Peer → Peer
unfolding after_assign assign
send_packets now packets s = elim s.current [
  | none ↦ out_nokey now none packets s
  | some k ↦
      if not (s.sending_is_valid k)
      then out_nokey now (some k) packets s
      else if birthdate_has_expired now (s.sending_birthdate k) reject_after_time
      then out_invalid now k packets s
      else after_assign now k packets (assign packets (s.sending_counter k)) s
]

unfoldable pub send_staged_packets : (now : ℕ) → Peer → Peer
unfolding send_packets
send_staged_packets now s = elim s.staged [
  | [] ↦ s
  | p ∷ ps ↦ send_packets now (p ∷ ps) (record s { staged = [] })
]

-- wg_packet_send_keepalive, on a device of this mtu; `allocated` is whether alloc_skb answers.
unfoldable pub send_keepalive : (now mtu : ℕ) (allocated : Bool) → Peer → Peer
unfolding send_staged_packets
send_keepalive now mtu allocated s = elim s.staged [
  | [] ↦
      if allocated
      then send_staged_packets now (record s { staged = record { len = 0; mtu = mtu } ∷ [] })
      else s
  | p ∷ ps ↦ send_staged_packets now s
]

-- wg_packet_purge_staged_packets
unfoldable pub purge_staged_packets : Peer → Peer
purge_staged_packets s = emit (packets_dropped (length s.staged)) (record s { staged = [] })
