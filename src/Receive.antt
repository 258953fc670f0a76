-- ===== src/Receive.antt =====
-- What the receive path of build/wg515-trigger/receive.c does with a packet: the checks on arrival
-- (Header) and the delivery loop of wg_packet_rx_poll (this file).
pub mod Header
pub mod Ingress
pub mod Fate
pub mod Once
pub mod Polls
mod Tests
use wireguard_receive_path.Prelude.{
  ℕ, ◌+◌, ◌*◌, ◌-◌, ◌%◌, ◌^◌, Bool, true, false, ltb, leb, ◌==◌, ◌&&◌, ◌||◌, not, if◌then◌else◌,
  Option, none, some, List, [], ◌∷◌, u64, update,
}
use wireguard_receive_path.Replay.{ReplayCounter, counter_validate}
use wireguard_receive_path.Keypairs.{Keypair, Keypairs, received_with_keypair}
use wireguard_receive_path.Wake.{PacketState, is_uncrypted}
use wireguard_receive_path.Wake.Job.{is_crypted}

-- ip_tunnel_parse_protocol
pub data Protocol : Type 0 where
  eth_p_ip eth_p_ipv6 neither : Protocol

-- A packet of the queue: its packet_cb, and what the kernel's helpers find in the decrypted data.
pub record Packet : Type 0 where
  pub id : ℕ
  pub state : PacketState
  -- keypairs are told apart over the peer's whole life
  pub keypair : ℕ
  pub nonce : ℕ
  -- wg_socket_endpoint_from_skb
  pub endpoint : Option ℕ
  pub len : ℕ
  -- skb_network_header(skb) >= skb->head
  pub has_network : Bool
  -- pskb_network_may_pull for an IPv4 and for an IPv6 header
  pub pulls_v4 : Bool
  pub pulls_v6 : Bool
  pub version : ℕ
  pub protocol : Protocol
  pub tot_len : ℕ
  pub payload_len : ℕ
  -- pskb_trim succeeds
  pub trims : Bool
  -- wg_allowedips_lookup_src: the internal_id of the peer that it finds
  pub routed_peer : Option ℕ

-- What the delivery does outside the peer's own fields.
pub data Effect : Type 0 where
  kfree_skb : Packet → Effect
  gro_receive : Packet → Effect
  keypair_put : (k : ℕ) → Effect
  peer_get peer_put : (internal_id : ℕ) → Effect
  rx_stats : (len : ℕ) → Effect
  frame_error length_error : Effect
  handshake_complete send_staged send_initiation : Effect
  any_received any_traversal data_received : Effect

-- The peer's fields that the delivery reads or writes, and its effects, the newest first.
pub record Rx : Type 0 where
  pub internal_id : ℕ
  pub keypairs : Keypairs
  pub counters : ℕ → ReplayCounter
  pub endpoint : Option ℕ
  pub sent_lastminute_handshake : Bool
  pub effects : List Effect

abbrev pub emit : Effect → Rx → Rx
emit e s = record s { effects = e ∷ s.effects }

abbrev pub reject_after_time : ℕ
reject_after_time = 180

abbrev pub keepalive_timeout : ℕ
keepalive_timeout = 10

abbrev pub rekey_timeout : ℕ
rekey_timeout = 5

-- wg_birthdate_has_expired: a comparison of signed 64-bit numbers.
abbrev pub birthdate_has_expired : ℕ → ℕ → ℕ → Bool
birthdate_has_expired now birthday expiration =
    leb ((birthday + expiration * 1000000000 + 2 ^ 63) % 2 ^ 64) ((now + 2 ^ 63) % 2 ^ 64)

abbrev pub must_rekey : ℕ → Keypairs → Option ℕ → Bool
must_rekey now s none = false
must_rekey now s (some k) =
    let kp = s.pairs k in
    kp.sending_is_valid
    && (kp.i_am_the_initiator
        && birthdate_has_expired now kp.sending_birthdate
            (reject_after_time - keepalive_timeout - rekey_timeout))

abbrev pub keep_key_fresh : ℕ → Rx → Rx
keep_key_fresh now s =
    if s.sent_lastminute_handshake
    then s
    else if must_rekey now s.keypairs (let q = s.keypairs in q.current_keypair)
    then emit send_initiation (record s { sent_lastminute_handshake = true })
    else s

-- message_data_len
abbrev pub message_data_len : ℕ → ℕ
message_data_len plain = plain + 16 + 16

-- The endpoint, and the slots of the keypairs.
abbrev pub confirm : Packet → Rx → Rx
confirm p s =
    let (key_is_new, kps) = received_with_keypair s.keypairs p.keypair in
    let t = record s { endpoint = p.endpoint; keypairs = kps } in
    if key_is_new
    then emit send_staged (emit handshake_complete (record t { sent_lastminute_handshake = false }))
    else t

abbrev pub dishonest : Effect → Packet → Rx → Rx
dishonest e p s = emit (kfree_skb p) (emit e s)

-- From the length of the inner packet on. wg_allowedips_lookup_src takes a reference to the peer that
-- it finds, which is put at once; wg_peer_put(NULL) does nothing.
abbrev pub route : Packet → ℕ → Rx → Rx
route p len s =
    if ltb p.len len
    then dishonest length_error p s
    else if not p.trims
    then emit (kfree_skb p) s
    else elim p.routed_peer [
      | none ↦ dishonest frame_error p s
      | some peer ↦
          let t = emit (peer_put peer) (emit (peer_get peer) s) in
          if peer == s.internal_id
          then emit (rx_stats (message_data_len p.len)) (emit (gro_receive p) t)
          else dishonest frame_error p t
    ]

abbrev pub by_protocol : Protocol → Packet → Rx → Rx
by_protocol eth_p_ip p s =
    if ltb p.tot_len 20 then dishonest length_error p s else route p p.tot_len s
by_protocol eth_p_ipv6 p s = route p (p.payload_len + 40) s
by_protocol neither p s = dishonest frame_error p s

-- What an authentic packet of any length does.
abbrev pub greet : ℕ → Packet → Rx → Rx
greet now p s = emit any_traversal (emit any_received (keep_key_fresh now (confirm p s)))

-- The inner packet.
abbrev pub examine : Packet → Rx → Rx
examine p s =
    if not p.has_network
    then dishonest length_error p s
    else if p.pulls_v4 && ((p.version == 4) || ((p.version == 6) && p.pulls_v6))
    then by_protocol p.protocol p s
    else dishonest frame_error p s

unfoldable pub consume_data_done : ℕ → Packet → Rx → Rx
consume_data_done now p s =
    if p.len == 0
    then emit (kfree_skb p) (emit (rx_stats (message_data_len 0)) (greet now p s))
    else examine p (emit data_received (greet now p s))

-- The end of a round: the references go, and the packet if it was not consumed.
abbrev pub release : Packet → Bool → Rx → Rx
release p free s =
    let t = emit (peer_put s.internal_id) (emit (keypair_put p.keypair) s) in
    if free then emit (kfree_skb p) t else t

abbrev pub has : Option ℕ → Bool
has none = false
has (some e) = true

-- One round of the loop.
unfoldable pub deliver_one : ℕ → Packet → Rx → Rx
unfolding consume_data_done
deliver_one now p s =
    if not (is_crypted p.state)
    then release p true s
    else (let (ok, c) = counter_validate (s.counters p.keypair) p.nonce in
        let t = record s { counters = update s.counters p.keypair c } in
        if not ok
        then release p true t
        else if not (has p.endpoint)
        then release p true t
        else release p false (consume_data_done now p t))

-- The while loop: the work done, what is left of the queue, and the peer.
unfoldable pub deliver : (now budget work : ℕ) → List Packet → Rx → ℕ × List Packet × Rx
unfolding deliver_one
deliver now budget work [] s = (work, [], s)
deliver now budget work (p ∷ q) s =
    if is_uncrypted p.state
    then (work, p ∷ q, s)
    else if leb budget (work + 1)
    then (work + 1, q, deliver_one now p s)
    else deliver now budget (work + 1) q (deliver_one now p s)
