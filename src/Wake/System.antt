-- ===== src/Wake/System.antt =====
-- All threads of one peer, interleaved in any order.
use wireguard_receive_path.Prelude.{ℕ, Bool, true, false, ◌≡◌, ◌≢◌, ◌⊎◌, none, []}
use wireguard_receive_path.Napi.{napi_schedule}
use wireguard_receive_path.Napi.Laws.{is_kicked}
use wireguard_receive_path.Wake.{PacketState, uncrypted, crypted, Knobs, Peer, update}
use wireguard_receive_path.Wake.Job.{
  JobPc, absent, linking, decrypting, deciding, arrive, publish_state, job_step,
}
use wireguard_receive_path.Wake.Poll.{PollPc, parked, poll_step, poll_start}

pub record System : Type 0 where
  pub peer : Peer
  pub jobs : ℕ → JobPc
  pub poll : PollPc
  -- the timer's callback runs and has cleared rx_timer_armed
  pub firing : Bool

-- Some packet of the queue is between the exchange and the link.
abbrev pub IsLinking : System → Type 0
IsLinking s = (p : ℕ) × (s.jobs p ≡ linking)

pub data Step (k : Knobs) (budget : ℕ) (s : System) : System → Type 0 where
  -- wg_packet_consume_data queues a new packet
  arrives :
      (p : ℕ)
      → s.jobs p ≡ absent
      → Step k budget s (record s { peer = arrive p s.peer; jobs = update s.jobs p linking })
  -- a thread stores the outcome of decrypt_packet, or DEAD where the device ring was full
  completes :
      (p : ℕ) (st : PacketState)
      → s.jobs p ≡ decrypting
      → st ≢ uncrypted
      → Step k budget s
          (record s { peer = publish_state p st s.peer; jobs = update s.jobs p (deciding st) })
  -- the thread that holds `p` makes its next access
  works :
      (p : ℕ) {pc : JobPc}
      → s.jobs p ≡ pc
      → Step k budget s (record s {
        peer = (job_step k p pc s.peer).0;
        jobs = update s.jobs p (job_step k p pc s.peer).1;
      })
  -- the coalescing timer expires: its callback clears the flag, then wakes the poll
  expires :
      s.peer.timer_active ≡ true
      → s.firing ≡ false
      → Step k budget s (record s {
        peer = (let q = s.peer in record q { timer_active = false; timer_armed = false });
        firing = true;
      })
  fires :
      s.firing ≡ true
      → Step k budget s (record s {
        peer = (let q = s.peer in record q { napi = napi_schedule q.napi });
        firing = false;
      })
  starts :
      s.poll ≡ parked
      → is_kicked s.peer.napi ≡ true
      → Step k budget s (record s { peer = (poll_start s.peer).0; poll = (poll_start s.peer).1 })
  -- the poll's next access; the queue answers truly unless a producer is linking
  polls :
      {pc : PollPc} (sees pulled : Bool)
      → s.poll ≡ pc
      → (sees ≡ true) ⊎ IsLinking s
      → Step k budget s (record s {
        peer = (poll_step k budget sees pulled pc s.peer).0;
        poll = (poll_step k budget sees pulled pc s.peer).1;
      })

pub data Reach (k : Knobs) (budget : ℕ) (s : System) : System → Type 0 where
  here : Reach k budget s s
  next : {t u : System} → Reach k budget s t → Step k budget t u → Reach k budget s u

-- An open interface whose peer has an empty queue, and no thread on its way.
pub record IsQuiet (s : System) : Type 0 where
  pub enabled : s.peer.napi.disable ≡ false
  pub no_netpoll : s.peer.napi.npsvc ≡ false
  pub no_busy_poll : s.peer.napi.in_busy_poll ≡ false
  pub not_sched : s.peer.napi.sched ≡ false
  pub not_kicked : is_kicked s.peer.napi ≡ false
  pub no_head : s.peer.peeked ≡ none
  pub no_linked : s.peer.linked ≡ []
  pub not_blocked : s.peer.blocked_on ≡ none
  pub no_job : (p : ℕ) → s.jobs p ≡ absent
  pub no_poll : s.poll ≡ parked

-- The thread that holds `p` runs alone, and decryption succeeds.
pub data Alone (k : Knobs) (p : ℕ) (s : System) : System → Type 0 where
  stay : Alone k p s s
  decrypts :
      {t : System}
      → Alone k p s t
      → t.jobs p ≡ decrypting
      → Alone k p s (record t {
        peer = publish_state p crypted t.peer;
        jobs = update t.jobs p (deciding crypted);
      })
  goes :
      {t : System} {pc : JobPc}
      → Alone k p s t
      → t.jobs p ≡ pc
      → Alone k p s (record t {
        peer = (job_step k p pc t.peer).0;
        jobs = update t.jobs p (job_step k p pc t.peer).1;
      })
