-- ===== src/Receive/Tests.antt =====
-- A datagram that is accepted, and two polls in which a packet is replayed.
use wireguard_receive_path.Prelude.{
  ℕ, ◌+◌, ◌≤◌, ◌≡◌, true, false, none, some, List, [], ◌∷◌, refl, arith, map, ◌==◌, if◌then◌else◌,
}
use wireguard_receive_path.Replay.{
  fresh_counter, counter_validate, slide, clear_words, test_and_mark,
}
use wireguard_receive_path.Keypairs.{Keypair, received_with_keypair}
use wireguard_receive_path.Wake.{PacketState, crypted, uncrypted, dead}
use wireguard_receive_path.Receive.{eth_p_ip, Packet, Rx, deliver}
use wireguard_receive_path.Receive.Header.{
  Skb, IsMessage, message_data, udp_header, prepare_skb_header, prepare_skb_header_lem,
}
use wireguard_receive_path.Receive.Fate.{IsDelivered, deliver-IsDelivered}
use wireguard_receive_path.Receive.Ingress.{Device, Answers, Datagram, packet_receive}
use wireguard_receive_path.Receive.Ingress.Balance.{IsBalanced, IsReceived}
use wireguard_receive_path.Receive.Ingress.Received.{packet_receive-IsReceived}
use wireguard_receive_path.Receive.Once.{delivered, IsOnce}
use wireguard_receive_path.Receive.Polls.{Poll, run_polls, run_polls-IsOnce}

-- An IPv4 header of 20 bytes, the UDP header, and an empty data message.
abbrev datagram : Skb
datagram = record {
  head = 1000;
  data_start = 1064;
  len = 60;
  tail_pointer = 1124;
  transport_header = 1084;
  protocol_ok = true;
  type_at = λ a. if a == 1092 then 4 else 0;
  udp_len = 40;
  pulls = λ n. true;
  trims = true;
}

abbrev message : Skb
message = record datagram { data_start = 1092; len = 32 }

prepare_skb_header_lem_example :
    (1092 ≡ 1084 + udp_header)
    × (32 + udp_header ≡ 40)
    × (1064 ≤ 1092)
    × (1092 + 32 ≤ 1064 + 60)
    × IsMessage message_data 32
unfolding prepare_skb_header
prepare_skb_header_lem_example =
    prepare_skb_header_lem datagram message (omega arith, omega arith) refl

abbrev packet : ℕ → ℕ → PacketState → Packet
packet id nonce state = record {
  id = id;
  state = state;
  keypair = 1;
  nonce = nonce;
  endpoint = some 9;
  len = 40;
  has_network = true;
  pulls_v4 = true;
  pulls_v6 = false;
  version = 4;
  protocol = eth_p_ip;
  tot_len = 40;
  payload_len = 0;
  trims = true;
  routed_peer = some 5;
}

abbrev session : Keypair
session = record {
  i_am_the_initiator = false;
  sending_is_valid = true;
  sending_birthdate = 7;
  receiving_is_valid = true;
  receiving_birthdate = 7;
  refs = 4;
  hashed = true;
  live = true;
}

abbrev peer : Rx
peer = record {
  internal_id = 5;
  keypairs = record {
    current_keypair = none;
    previous_keypair = none;
    next_keypair = some 1;
    pairs = λ k. session;
  };
  counters = λ k. fresh_counter;
  endpoint = none;
  sent_lastminute_handshake = false;
  effects = [];
}

abbrev first_queue : List Packet
first_queue = packet 1 0 crypted ∷ packet 2 1 dead ∷ packet 3 2 crypted ∷ packet 4 3 uncrypted ∷ []

abbrev second_queue : List Packet
second_queue = packet 4 3 crypted ∷ packet 5 2 crypted ∷ []

abbrev polls : List Poll
polls =
    record { now = 100; budget = 64; queue = first_queue }
    ∷ record { now = 200; budget = 64; queue = second_queue }
    ∷ []

polls-delivered : map Packet.id (delivered (run_polls polls peer).effects) ≡ 4 ∷ 3 ∷ 1 ∷ []
unfolding run_polls deliver counter_validate slide clear_words test_and_mark received_with_keypair
polls-delivered = refl

deliver-IsDelivered_example : IsDelivered 64 0 first_queue peer (deliver 100 64 0 first_queue peer)
deliver-IsDelivered_example = deliver-IsDelivered 100 64 0 first_queue peer (omega arith)

run_polls-IsOnce_example : IsOnce (delivered (run_polls polls peer).effects)
run_polls-IsOnce_example = run_polls-IsOnce polls peer (λ k. refl) refl

abbrev device : Device
device = record {
  handshake_ring = [];
  handshake_queue_len = 0;
  decrypt_ring = [];
  rx_queue = λ p. [];
  keypair_refs = λ k. 1;
  peer_refs = λ p. 2;
  is_dead = λ p. false;
  freed = [];
  completed = [];
}

abbrev ready : Answers
ready = record { rng_is_initialized = true; trylock = true; decrypt_room = false }

abbrev data_packet : Datagram
data_packet = record { skb = 7; type = some 4; entry = some 3 }

packet_receive-IsReceived_example :
    IsReceived
      (λ k. 0)
      (λ k. 1)
      (λ p. 2)
      7
      device
      (packet_receive (λ k. 0) ready data_packet device)
packet_receive-IsReceived_example =
    packet_receive-IsReceived (λ k. 0) (λ k. 1) (λ p. 2) device balanced ready data_packet
  where
    balanced : IsBalanced (λ k. 0) (λ k. 1) (λ p. 2) device
    balanced = record {
      keypair_refs = λ k. refl;
      peer_refs = λ p. refl;
      bounded = λ p. omega arith;
      ring_bounded = omega arith;
      ring_counted = omega arith;
    }
