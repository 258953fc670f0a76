-- ===== src/Timers/Laws.antt =====
-- How often a handshake is tried again, and that a removed peer's timers stay off.
use wireguard_receive_path.Prelude.{
  ℕ, ◌+◌, ◌-◌, ◌≡◌, min, Bool, true, false, ◌||◌, none, List, [], ◌∷◌, arith, refl,
}
use wireguard_receive_path.Timers.{
  Action, send_initiation, Timers, send_queued_initiation, expired_retransmit_handshake,
  expired_send_keepalive, expired_new_handshake, expired_zero_key_material,
  queued_expired_zero_key_material, expired_send_persistent_keepalive, data_sent, data_received,
  any_authenticated_packet_sent, any_authenticated_packet_received, handshake_initiated,
  handshake_complete, session_derived, any_authenticated_packet_traversal, stop,
}

-- The initiations that were asked for as retries
abbrev pub retries : List Action → ℕ
retries [] = 0
retries (send_initiation true ∷ l) = 1 + retries l
retries (_ ∷ l) = retries l

-- Every call that timers.c exports or hands to the timers, and requests of an initiation by other
-- parts.
pub data Call : Type 0 where
  retransmits keepalive_expires zeroes received derived traversed : (now : ℕ) → Call
  new_handshake_expires clears persistent_expires sent_any received_any completed requested : Call
  sent initiated : (now jitter : ℕ) → Call

module _ (hz : ℕ) where
  unfoldable pub call : Call → Timers → Timers
  call (Call.retransmits now) s = expired_retransmit_handshake hz now s
  call (Call.keepalive_expires now) s = expired_send_keepalive hz now s
  call (Call.zeroes now) s = expired_zero_key_material hz s
  call (Call.received now) s = data_received hz now s
  call (Call.derived now) s = session_derived hz now s
  call (Call.traversed now) s = any_authenticated_packet_traversal hz now s
  call Call.new_handshake_expires s = expired_new_handshake hz s
  call Call.clears s = queued_expired_zero_key_material hz s
  call Call.persistent_expires s = expired_send_persistent_keepalive hz s
  call Call.sent_any s = any_authenticated_packet_sent hz s
  call Call.received_any s = any_authenticated_packet_received hz s
  call Call.requested s = send_queued_initiation false s
  call Call.completed s = handshake_complete hz s
  call (Call.sent now jitter) s = data_sent hz now jitter s
  call (Call.initiated now jitter) s = handshake_initiated hz now jitter s

  unfoldable pub call_all : List Call → Timers → Timers
  call_all [] s = s
  call_all (c ∷ l) s = call_all l (call c s)

  -- The runs of the retransmission timer's handler, and the calls that set the attempts to 0
  abbrev pub retransmissions : List Call → ℕ
  retransmissions [] = 0
  retransmissions (Call.retransmits now ∷ l) = 1 + retransmissions l
  retransmissions (_ ∷ l) = retransmissions l

  abbrev pub starts_over : Call → Bool
  starts_over Call.completed = true
  starts_over Call.requested = true
  starts_over Call.new_handshake_expires = true
  starts_over _ = false

  abbrev pub any_starts_over : List Call → Bool
  any_starts_over [] = false
  any_starts_over (c ∷ l) = starts_over c || any_starts_over l

  call-retries :
      (c : Call) (s : Timers)
      → starts_over c ≡ false
      → (retries (call c s).actions
          ≡ retries s.actions + min (retransmissions (c ∷ [])) (19 - s.handshake_attempts))
        × (19 - (call c s).handshake_attempts
            ≡ 19 - s.handshake_attempts - retransmissions (c ∷ []))
  unfolding call expired_retransmit_handshake expired_send_keepalive expired_new_handshake
      expired_zero_key_material queued_expired_zero_key_material expired_send_persistent_keepalive
      data_sent data_received any_authenticated_packet_sent any_authenticated_packet_received
      handshake_initiated handshake_complete session_derived any_authenticated_packet_traversal
      send_queued_initiation
  call-retries c s h = (ground (arith, h), ground (arith, h))

  retransmissions-cons :
      (c : Call) (l : List Call)
      → retransmissions (c ∷ l) ≡ retransmissions (c ∷ []) + retransmissions l
  retransmissions-cons c l = ground arith

  -- In any sequence of calls of timers.c and its handlers in which no handshake completes, the timer of
  -- a new handshake does not expire, and no other part asks for an initiation (each of which starts the
  -- attempts over): the handler of the retransmission timer asks for one retry each time it runs while
  -- less than 19 attempts are counted, and for none after, and nothing else asks for one.
  pub call_all-retries :
      (l : List Call) (s : Timers)
      → any_starts_over l ≡ false
      → retries (call_all l s).actions
        ≡ retries s.actions + min (retransmissions l) (19 - s.handshake_attempts)
  unfolding call_all
  call_all-retries [] s h = omega arith
  call_all-retries (c ∷ l) s h =
      let (one, left) = call-retries c s (ground (arith, h)) in
      let rest = call_all-retries l (call c s) (ground (arith, h)) in
      omega (arith, rest, one, left, retransmissions-cons c l)

  -- The peer is dead, and no timer is pending.
  pub record IsStopped (s : Timers) : Type 0 where
    pub dead : s.is_dead ≡ true
    pub no_retransmit : s.retransmit_handshake ≡ none
    pub no_keepalive : s.send_keepalive ≡ none
    pub no_new : s.new_handshake ≡ none
    pub no_zero : s.zero_key_material ≡ none
    pub no_persistent : s.persistent_keepalive ≡ none

  call-IsStopped : (c : Call) (s : Timers) → IsStopped s → IsStopped (call c s)
  unfolding call expired_retransmit_handshake expired_send_keepalive expired_new_handshake
      expired_zero_key_material queued_expired_zero_key_material expired_send_persistent_keepalive
      data_sent data_received any_authenticated_packet_sent any_authenticated_packet_received
      handshake_initiated handshake_complete session_derived any_authenticated_packet_traversal
      send_queued_initiation
  call-IsStopped c s h = record {
    dead = ground (arith, h.dead);
    no_retransmit = ground (arith, h.dead, h.no_retransmit);
    no_keepalive = ground (arith, h.dead, h.no_keepalive);
    no_new = ground (arith, h.dead, h.no_new);
    no_zero = ground (arith, h.dead, h.no_zero);
    no_persistent = ground (arith, h.dead, h.no_persistent);
  }

  calls-IsStopped : (l : List Call) (s : Timers) → IsStopped s → IsStopped (call_all l s)
  unfolding call_all
  calls-IsStopped [] s h = h
  calls-IsStopped (c ∷ l) s h = calls-IsStopped l (call c s) (call-IsStopped c s h)

  -- After wg_timers_stop on a dead peer, no sequence of calls of the other functions of timers.c, the
  -- handlers of timers included, makes a timer pending again.
  pub call_all-stop :
      (l : List Call) (s : Timers) → s.is_dead ≡ true → IsStopped (call_all l (stop hz s))
  unfolding stop
  call_all-stop l s dead = calls-IsStopped l (stop hz s) (record {
    dead = dead;
    no_retransmit = refl;
    no_keepalive = refl;
    no_new = refl;
    no_zero = refl;
    no_persistent = refl;
  })
