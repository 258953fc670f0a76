-- ===== src/Wake/Inv.antt =====
-- Why no wake is lost: while packets are queued, either NAPI is scheduled or some job is on its way
-- to wake it. True at every point of the poll, kept by every step.
pub mod Env
pub mod Jobs
pub mod Polls
pub mod PollPhase
pub mod Reach
use wireguard_receive_path.Prelude.{
  ℕ, Bool, true, false, ◌≡◌, ◌≢◌, ◌⊎◌, Option, none, some, List, [], ◌∷◌, ◌||◌, ◌&&◌, not, ◌==◌,
}
use wireguard_receive_path.Napi.{Napi}
use wireguard_receive_path.Napi.Laws.{is_kicked}
use wireguard_receive_path.Wake.{PacketState, is_uncrypted, Knobs, Peer}
use wireguard_receive_path.Wake.Job.{JobPc, is_crypted, names_head}
use wireguard_receive_path.Wake.Poll.{PollPc, is_ready, address_of}
use wireguard_receive_path.Wake.System.{System}

-- The job will call napi_schedule, if rx_blocked_on stays `b` until it decides, and `p` is the
-- address of its packet.
abbrev pub will_wake : Knobs → Option ℕ → ℕ → JobPc → Bool
will_wake k b p JobPc.waking = true
will_wake k b p JobPc.linking = not k.headwake || names_head b p
will_wake k b p JobPc.decrypting = not k.headwake || names_head b p
will_wake k b p (JobPc.deciding st) = not (k.headwake && is_crypted st) || names_head b p
will_wake k b p _ = false

-- The outcome of decryption is not stored yet.
abbrev pub is_unset : JobPc → Bool
is_unset JobPc.absent = true
is_unset JobPc.linking = true
is_unset JobPc.decrypting = true
is_unset _ = false

abbrev pub is_absent : JobPc → Bool
is_absent JobPc.absent = true
is_absent _ = false

abbrev pub elem : ℕ → List ℕ → Bool
elem p [] = false
elem p (q ∷ l) = (q == p) || elem p l

-- Nothing is queued, and the next packet will be let through.
abbrev pub IsEmpty : Knobs → Peer → Type 0
IsEmpty k s = (s.peeked ≡ none) × (s.linked ≡ []) × ((k.headwake ≡ false) ⊎ (s.blocked_on ≡ none))

abbrev pub Waker : Knobs → Peer → (ℕ → JobPc) → Type 0
Waker k s jobs = (p : ℕ) × (will_wake k s.blocked_on (s.address p) (jobs p) ≡ true)

abbrev pub IsWatched : Knobs → Peer → (ℕ → JobPc) → Type 0
IsWatched k s jobs = IsEmpty k s ⊎ Waker k s jobs

abbrev pub IsCovered : Knobs → Peer → (ℕ → JobPc) → Type 0
IsCovered k s jobs = IsWatched k s jobs ⊎ (s.napi.missed ≡ true)

-- rx_blocked_on lets the completion of the peeked head through.
abbrev pub LetsHead : Knobs → Peer → Type 0
LetsHead k s =
    (k.headwake ≡ false) ⊎ ((s.blocked_on ≡ none) ⊎ (s.blocked_on ≡ address_of s.address s.peeked))

-- What holds at each point of the poll, beside NAPI being scheduled.
abbrev pub Phase : Knobs → PollPc → Peer → (ℕ → JobPc) → Type 0
Phase k PollPc.parked s jobs =
    (is_kicked s.napi ≡ true) × (s.napi.sched ≡ true)
    ⊎ (is_kicked s.napi ≡ false) × (s.napi.sched ≡ false) × IsWatched k s jobs
Phase k (PollPc.deliver work) s jobs = s.napi.sched ≡ true
Phase k (PollPc.steal work) s jobs =
    (s.napi.sched ≡ true) × ((k.headwake ≡ true) ⊎ IsCovered k s jobs)
Phase k (PollPc.publish work) s jobs = (s.napi.sched ≡ true) × (k.headwake ≡ true)
Phase k (PollPc.store work head) s jobs =
    (s.napi.sched ≡ true) × (head ≡ address_of s.address s.peeked)
Phase k (PollPc.recheck work) s jobs =
    (s.napi.sched ≡ true) × (s.blocked_on ≡ address_of s.address s.peeked)
Phase k (PollPc.supp_test work) s jobs = (s.napi.sched ≡ true) × LetsHead k s × IsCovered k s jobs
Phase k (PollPc.supp_clear work) s jobs = (s.napi.sched ≡ true) × LetsHead k s
Phase k (PollPc.supp_recheck work) s jobs = (s.napi.sched ≡ true) × LetsHead k s
Phase k (PollPc.complete work) s jobs = (s.napi.sched ≡ true) × IsCovered k s jobs

-- Neither disabled, nor polled by netpoll or a busy poller.
pub record IsOpen (n : Napi) : Type 0 where
  pub enabled : n.disable ≡ false
  pub no_netpoll : n.npsvc ≡ false
  pub no_busy_poll : n.in_busy_poll ≡ false

pub record Inv (k : Knobs) (s : System) : Type 0 where
  pub is_open : IsOpen s.peer.napi
  pub phase : Phase k s.poll s.peer s.jobs
  -- a packet whose state is UNCRYPTED is still with its job, and a queued one has a job
  pub unset : (p : ℕ) → is_uncrypted (s.peer.state p) ≡ true → is_unset (s.jobs p) ≡ true
  pub head_job : (p : ℕ) → s.peer.peeked ≡ some p → is_absent (s.jobs p) ≡ false
  pub linked_job : (p : ℕ) → elem p s.peer.linked ≡ true → is_absent (s.jobs p) ≡ false
