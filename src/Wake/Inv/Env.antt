-- ===== src/Wake/Inv/Env.antt =====
-- What the other threads may do to the poll's view, and that it keeps every phase.
use wireguard_receive_path.Prelude.{
  ℕ, true, false, ◌≡◌, ◌⊎◌, inl, inr, arith, sym, ◌∙◌, refl, Bool-cases,
}
use wireguard_receive_path.Napi.{Napi, napi_schedule}
use wireguard_receive_path.Napi.Laws.{is_kicked}
use wireguard_receive_path.Wake.{Knobs, Peer}
use wireguard_receive_path.Wake.Job.{JobPc}
use wireguard_receive_path.Wake.Poll.{PollPc, is_ready, address_of}
use wireguard_receive_path.Wake.Inv

-- One step of a thread that is not the poll: NAPI is left alone or scheduled, and a packet that was
-- watched stays watched unless NAPI was scheduled.
pub record Env (k : Knobs) (s : Peer) (jobs : ℕ → JobPc) (s' : Peer) (jobs' : ℕ → JobPc)
    : Type 0 where
  pub peeked_same : s'.peeked ≡ s.peeked
  pub address_same : s'.address ≡ s.address
  pub blocked_same : s'.blocked_on ≡ s.blocked_on
  pub napi_moved : (s'.napi ≡ s.napi) ⊎ (s'.napi ≡ napi_schedule s.napi)
  pub watched : Inv.IsWatched k s jobs → Inv.IsWatched k s' jobs' ⊎ (s'.napi ≡ napi_schedule s.napi)
  pub ready : is_ready s ≡ true → is_ready s' ≡ true

-- napi_schedule on an enabled instance.
pub napi_schedule_lem :
    (n : Napi)
    → n.disable ≡ false
    → ((napi_schedule n).sched ≡ true)
      × ((n.sched ≡ true)
            × ((napi_schedule n).missed ≡ true)
            × (is_kicked (napi_schedule n) ≡ is_kicked n)
          ⊎ (n.sched ≡ false) × (is_kicked (napi_schedule n) ≡ true))
unfolding napi_schedule
napi_schedule_lem n e = elim (Bool-cases n.sched) [
  | inl on ↦ (ground arith, inl (on, ground arith, ground arith))
  | inr off ↦ (ground arith, inr (off, ground arith))
]

pub napi_schedule-IsOpen : {n : Napi} → Inv.IsOpen n → Inv.IsOpen (napi_schedule n)
unfolding napi_schedule
napi_schedule-IsOpen o = ground arith

module _ (k : Knobs) (s : Peer) (jobs : ℕ → JobPc) (s' : Peer) (jobs' : ℕ → JobPc)
    (env : Env k s jobs s' jobs') (enabled : s.napi.disable ≡ false) where
  woken : s'.napi ≡ napi_schedule s.napi → s.napi.sched ≡ true → s'.napi.missed ≡ true
  woken e on = ground (arith, napi_schedule_lem s.napi enabled)

  sched_env : s.napi.sched ≡ true → s'.napi.sched ≡ true
  sched_env on = ground (arith, napi_schedule_lem s.napi enabled, env.napi_moved)

  kicked_env : s.napi.sched ≡ true → is_kicked s.napi ≡ true → is_kicked s'.napi ≡ true
  kicked_env on kick = elim env.napi_moved [
    | inl same ↦ rw same kick
    | inr e ↦ elim (napi_schedule_lem s.napi enabled).1 [
      | inl (a, b, c) ↦ rw e (c ∙ kick)
      | inr (a, b) ↦ rw e b
    ]
  ]

  env-IsCovered : s.napi.sched ≡ true → Inv.IsCovered k s jobs → Inv.IsCovered k s' jobs'
  env-IsCovered on (inl w) = elim (env.watched w) [ inl w' ↦ inl w' | inr e ↦ inr (woken e on) ]
  env-IsCovered on (inr m) = elim env.napi_moved [
    | inl same ↦ inr (rw same m)
    | inr e ↦ inr (woken e on)
  ]

  head_env : address_of s'.address s'.peeked ≡ address_of s.address s.peeked
  head_env = rw (env.address_same, env.peeked_same) refl

  lets_env : Inv.LetsHead k s → Inv.LetsHead k s'
  lets_env h = rw (env.blocked_same, env.address_same, env.peeked_same) h

  -- A wake of a parked poll kicks it.
  kicked_now :
      s.napi.sched ≡ false
      → s'.napi ≡ napi_schedule s.napi
      → (is_kicked s'.napi ≡ true) × (s'.napi.sched ≡ true)
  kicked_now off e = ground (arith, napi_schedule_lem s.napi enabled)

  parked_env :
      is_kicked s.napi ≡ false
      → s.napi.sched ≡ false
      → Inv.IsWatched k s jobs
      → Inv.Phase k PollPc.parked s' jobs'
  parked_env kick off w = elim (env.watched w) [
    | inr e ↦ inl (kicked_now off e)
    | inl w' ↦ elim env.napi_moved [
      | inr e ↦ inl (kicked_now off e)
      | inl same ↦ inr (rw same kick, rw same off, w')
    ]
  ]

  pub Phase-Env : (pc : PollPc) → Inv.Phase k pc s jobs → Inv.Phase k pc s' jobs'
  Phase-Env PollPc.parked (inl (kick, on)) = inl (kicked_env on kick, sched_env on)
  Phase-Env PollPc.parked (inr (kick, on, w)) = parked_env kick on w
  Phase-Env (PollPc.deliver work) on = sched_env on
  Phase-Env (PollPc.steal work) (on, inl h) = (sched_env on, inl h)
  Phase-Env (PollPc.steal work) (on, inr c) = (sched_env on, inr (env-IsCovered on c))
  Phase-Env (PollPc.publish work) (on, h) = (sched_env on, h)
  Phase-Env (PollPc.store work head) (on, h) = (sched_env on, h ∙ sym head_env)
  Phase-Env (PollPc.recheck work) (on, b) = (sched_env on, env.blocked_same ∙ b ∙ sym head_env)
  Phase-Env (PollPc.supp_test work) (on, l, c) = (sched_env on, lets_env l, env-IsCovered on c)
  Phase-Env (PollPc.supp_clear work) (on, l) = (sched_env on, lets_env l)
  Phase-Env (PollPc.supp_recheck work) (on, l) = (sched_env on, lets_env l)
  Phase-Env (PollPc.complete work) (on, c) = (sched_env on, env-IsCovered on c)
