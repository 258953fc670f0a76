-- ===== src/Wake/Job.antt =====
-- One packet on its way: queued by the receive softirq, decrypted by some thread, completed by
-- wg_queue_enqueue_per_peer_rx.
use wireguard_receive_path.Prelude.{
  ℕ, ◌+◌, Bool, true, false, ◌&&◌, ◌||◌, not, Option, none, some, ◌==◌, leb, if◌then◌else◌, ◌++◌,
  [], ◌∷◌,
}
use wireguard_receive_path.Napi.{napi_schedule}
use wireguard_receive_path.Wake.{PacketState, uncrypted, crypted, Knobs, Peer, update}

-- Where the thread that holds the packet stands.
pub data JobPc : Type 0 where
  absent : JobPc  -- not allocated yet
  linking : JobPc  -- in wg_prev_queue_enqueue, between the exchange of head and the link
  decrypting : JobPc  -- in the device ring, or in decrypt_packet
  deciding : PacketState → JobPc  -- after the release store of the state
  arming : JobPc  -- before the compare-exchange of rx_timer_armed
  starting : JobPc  -- before hrtimer_start
  batched : JobPc  -- before the exchange of rx_timer_armed
  cancelling : JobPc  -- before hrtimer_try_to_cancel
  waking : JobPc  -- before napi_schedule
  finished : JobPc

-- WRITE_ONCE(state, UNCRYPTED) and the exchange of the queue's head.
unfoldable pub arrive : ℕ → Peer → Peer
arrive p s = record s { linked = s.linked ++ (p ∷ []); state = update s.state p uncrypted }

-- atomic_set_release(&PACKET_CB(skb)->state, state)
unfoldable pub publish_state : ℕ → PacketState → Peer → Peer
publish_state p st s = record s { state = update s.state p st }

abbrev pub is_crypted : PacketState → Bool
is_crypted crypted = true
is_crypted _ = false

-- b == NULL || b == skb
abbrev pub names_head : Option ℕ → (skb : ℕ) → Bool
names_head none skb = true
names_head (some b) skb = b == skb

-- The branches of wg_queue_enqueue_per_peer_rx after the store, up to the next shared access: the
-- read of rx_blocked_on, or the increment of rx_ready.
unfoldable pub decide : Knobs → ℕ → PacketState → Peer → Peer × JobPc
decide k p st s =
    if k.headwake && is_crypted st
    then (s, if names_head s.blocked_on (s.address p) then waking else finished)
    else if (k.trig_k == 0) || not (is_crypted st)
    then (s, waking)
    else (
      record s { rx_ready = s.rx_ready + 1 },
      if leb k.trig_k (s.rx_ready + 1) then batched else arming,
    )

-- The later steps.
unfoldable pub job_step : Knobs → ℕ → JobPc → Peer → Peer × JobPc
unfolding decide
job_step k p (deciding st) s = decide k p st s
job_step k p arming s =
    if s.timer_armed then (s, finished) else (record s { timer_armed = true }, starting)
job_step k p starting s = (record s { timer_active = true }, finished)
job_step k p batched s =
    (record s { timer_armed = false }, if s.timer_armed then cancelling else waking)
job_step k p cancelling s = (record s { timer_active = false }, waking)
job_step k p waking s = (record s { napi = napi_schedule s.napi }, finished)
job_step k p linking s = (s, decrypting)
job_step k p pc s = (s, pc)
