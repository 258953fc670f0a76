-- ===== src/Timers/Tests.antt =====
-- A handshake that nobody answers, and a peer that is removed.
use wireguard_receive_path.Prelude.{
  ◌+◌, ◌-◌, ◌≡◌, min, true, false, none, some, List, [], ◌∷◌, refl,
}
use wireguard_receive_path.Timers.{Timers, stop, expired_retransmit_handshake}
use wireguard_receive_path.Timers.Laws.{
  Call, retries, retransmissions, call, call_all, call_all-retries, IsStopped, call_all-stop,
}

abbrev waiting : Timers
waiting = record {
  running = true;
  is_dead = false;
  retransmit_handshake = some 500;
  send_keepalive = none;
  new_handshake = none;
  zero_key_material = none;
  persistent_keepalive = none;
  handshake_attempts = 17;
  need_another_keepalive = false;
  sent_lastminute_handshake = false;
  persistent_keepalive_interval = 0;
  actions = [];
}

waiting_given_up :
    (call_all 100
      (Call.retransmits 500 ∷ Call.retransmits 1000 ∷ Call.retransmits 1500 ∷ [])
      waiting).zero_key_material
    ≡ some 55500
unfolding call_all call expired_retransmit_handshake
waiting_given_up = refl

-- The timer is set again after each retry, and packets come in between.
abbrev trying : List Call
trying =
    Call.retransmits 500
    ∷ Call.initiated 501 3
    ∷ Call.received 700
    ∷ Call.retransmits 1004
    ∷ Call.initiated 1005 1
    ∷ Call.retransmits 1506
    ∷ []

call_all-retries_example :
    retries (call_all 100 trying waiting).actions ≡ 0 + min (retransmissions 100 trying) (19 - 17)
call_all-retries_example = call_all-retries 100 trying waiting refl

call_all-stop_example : IsStopped 100 (
    call_all 100
      (Call.received 7 ∷ Call.derived 8 ∷ Call.sent 9 1 ∷ Call.initiated 9 2 ∷ [])
      (stop 100 (record waiting { is_dead = true })))
call_all-stop_example =
    call_all-stop 100 (Call.received 7 ∷ Call.derived 8 ∷ Call.sent 9 1 ∷ Call.initiated 9 2 ∷ [])
      (record waiting { is_dead = true }) refl
