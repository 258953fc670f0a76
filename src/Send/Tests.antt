-- ===== src/Send/Tests.antt =====
-- A peer that sends two packets with its first keypair, and one with the next.
use wireguard_receive_path.Prelude.{
  ◌+◌, ◌<◌, ◌==◌, ◌≡◌, false, true, none, some, List, [], ◌∷◌, refl, arith, min, if◌then◌else◌,
}
use wireguard_receive_path.Send.{
  handshake_send_worker, send_handshake_initiation, Skb, Peer, calculate_skb_padding,
  send_staged_packets, send_keepalive, send_packets, after_assign, assign,
}
use wireguard_receive_path.Send.Padding.{rounded, last_piece, calculate_skb_padding_lem}
use wireguard_receive_path.Send.Rate.{
  Handshake, initiate, run_handshake, run_handshakes, sent_times, IsSpaced, run_handshakes-IsSpaced,
}
use wireguard_receive_path.Send.Nonces.{used, IsUnique}
use wireguard_receive_path.Send.Calls.{
  Call, stage, send, keepalive, derive, use_keypair, run_call, run_calls, IsNew, run_calls-IsUnique,
}

abbrev new_peer : Peer
new_peer = record {
  staged = [];
  current = none;
  next_id = 0;
  sending_is_valid = λ k. false;
  sending_birthdate = λ k. 0;
  sending_counter = λ k. 0;
  i_am_the_initiator = λ k. false;
  is_dead = false;
  last_sent_handshake = 0;
  timer_handshake_attempts = 0;
  transmit_handshake_work = false;
  effects = [];
}

abbrev small : Skb
small = record { len = 100; mtu = 1420 }

abbrev calls : List Call
calls =
    stage small
    ∷ stage small
    ∷ derive 1000 true
    ∷ use_keypair (some 0)
    ∷ send 2000
    ∷ derive 3000 true
    ∷ use_keypair (some 1)
    ∷ keepalive 4000 1420 true
    ∷ []

used_twice : used (run_calls calls new_peer).effects ≡ (1, 0) ∷ (0, 1) ∷ (0, 0) ∷ []
unfolding run_calls run_call send_staged_packets send_keepalive send_packets after_assign assign
used_twice = refl

new_peer-IsNew : IsNew new_peer
new_peer-IsNew = record { no_effects = refl; no_keypair = refl; none_valid = λ k. refl }

run_calls-IsUnique_example : IsUnique (used (run_calls calls new_peer).effects)
run_calls-IsUnique_example = run_calls-IsUnique calls new_peer new_peer-IsNew

abbrev long : Skb
long = record { len = 1430; mtu = 1420 }

calculate_skb_padding_lem_example :
    (calculate_skb_padding long < 16)
    × (last_piece long + calculate_skb_padding long
        ≡ (if long.mtu == 0 then rounded long.len else min long.mtu (rounded (last_piece long))))
calculate_skb_padding_lem_example = calculate_skb_padding_lem long (omega arith)

abbrev handshakes : List Handshake
handshakes =
    initiate 6000000000 6000000001 true
    ∷ initiate 9000000000 9000000001 true
    ∷ initiate 11000000001 11000000002 true
    ∷ []

run_handshakes-IsSpaced_example : IsSpaced (sent_times (run_handshakes handshakes new_peer).effects)
run_handshakes-IsSpaced_example = run_handshakes-IsSpaced 1 handshakes new_peer refl (omega arith) (
  omega arith,
  omega arith,
  omega arith,
  (omega arith, omega arith, omega arith, (omega arith, omega arith, omega arith, tt)),
)

sent_twice : sent_times (run_handshakes handshakes new_peer).effects ≡ 11000000002 ∷ 6000000001 ∷ []
unfolding run_handshakes run_handshake handshake_send_worker send_handshake_initiation
sent_twice = refl
