-- ===== src/Wake/Stale.antt =====
-- What a stale rx_blocked_on does: wg_headwake switched on while the poll is parked elsewhere.
use wireguard_receive_path.Prelude.{
  ℕ, Bool, true, false, ◌≡◌, some, refl, arith, sym, subst, ap, ◌∙◌,
}
use wireguard_receive_path.Napi.Laws.{is_kicked}
use wireguard_receive_path.Wake.{crypted, Knobs, Peer, update}
use wireguard_receive_path.Wake.Job.{
  JobPc, absent, linking, decrypting, deciding, finished, is_crypted, arrive, publish_state, decide,
  job_step,
}
use wireguard_receive_path.Wake.Poll.{PollPc, parked, poll_step}
use wireguard_receive_path.Wake.System.{
  System, Step, arrives, completes, works, expires, fires, starts, polls,
}
use wireguard_receive_path.Wake.Safety.{IsAsleep}

-- Jobs that can still come to napi_schedule without reading rx_blocked_on.
abbrev is_silent : JobPc → Bool
is_silent absent = true
is_silent linking = true
is_silent decrypting = true
is_silent (deciding st) = is_crypted st
is_silent finished = true
is_silent _ = false

-- The poll is parked and rx_blocked_on holds the address `b`, and every packet that lies there, now or
-- later, is done; nothing is on its way to wake the poll.
pub record IsStale (b : ℕ) (s : System) : Type 0 where
  pub parked_poll : s.poll ≡ parked
  pub not_kicked : is_kicked s.peer.napi ≡ false
  pub blocked : s.peer.blocked_on ≡ some b
  pub gone : (p : ℕ) → s.peer.address p ≡ b → s.jobs p ≡ finished
  pub silent : (p : ℕ) → is_silent (s.jobs p) ≡ true
  pub no_timer : s.peer.timer_active ≡ false
  pub no_callback : s.firing ≡ false

-- A run in which every packet is authentic.
abbrev pub IsAuthentic : {k : Knobs} {budget : ℕ} {s t : System} → Step k budget s t → Type 0
IsAuthentic (completes p st e ne) = st ≡ crypted
IsAuthentic _ = Unit

pub data AuthenticReach (k : Knobs) (budget : ℕ) (s : System) : System → Type 0 where
  first : AuthenticReach k budget s s
  then_ :
      {t u : System}
      → AuthenticReach k budget s t
      → (st : Step k budget t u) → IsAuthentic st
      → AuthenticReach k budget s u

-- A silent job takes a step and stays silent; NAPI, rx_blocked_on and the timer stay.
record Quiet (k : Knobs) (s : Peer) (p : ℕ) (pc : JobPc) : Type 0 where
  napi : (job_step k p pc s).0.napi ≡ s.napi
  address : (job_step k p pc s).0.address ≡ s.address
  blocked : (job_step k p pc s).0.blocked_on ≡ s.blocked_on
  timer : (job_step k p pc s).0.timer_active ≡ s.timer_active
  silent : is_silent (job_step k p pc s).1 ≡ true
  ended : pc ≡ finished → (job_step k p pc s).1 ≡ finished

job_step-Quiet :
    (k : Knobs) (b p : ℕ) (pc : JobPc) (s : Peer)
    → k.headwake ≡ true
    → s.blocked_on ≡ some b
    → is_silent pc ≡ true
    → (s.address p ≡ b → pc ≡ finished)
    → Quiet k s p pc
unfolding job_step decide
job_step-Quiet k b p (deciding st) s on blocked silent other = ground arith
job_step-Quiet k b p pc s on blocked silent other = ground arith

module _ (k : Knobs) (b : ℕ) (on : k.headwake ≡ true) where
  works-IsStale :
      {s : System}
      → IsStale b s
      → (p : ℕ) {pc : JobPc} → s.jobs p ≡ pc
      → IsStale b (record s {
        peer = (job_step k p pc s.peer).0;
        jobs = update s.jobs p (job_step k p pc s.peer).1;
      })
  works-IsStale {s} h p {pc} e = record {
    parked_poll = h.parked_poll;
    not_kicked = ap is_kicked quiet.napi ∙ h.not_kicked;
    blocked = quiet.blocked ∙ h.blocked;
    gone = λ q a. ground (arith, h.gone q (rw quiet.address at a), quiet.ended);
    silent = λ q. ground (arith, h.silent q, quiet.silent);
    no_timer = quiet.timer ∙ h.no_timer;
    no_callback = h.no_callback;
  }
    where
      quiet : Quiet k s.peer p pc
      quiet =
          job_step-Quiet k b p pc s.peer on h.blocked (ap is_silent (sym e) ∙ h.silent p)
            (λ same. sym e ∙ h.gone p same)

  polls-IsStale :
      {s : System} (budget : ℕ)
      → IsStale b s
      → (sees pulled : Bool) (pc : PollPc) → pc ≡ parked
      → IsStale b (record s {
        peer = (poll_step k budget sees pulled pc s.peer).0;
        poll = (poll_step k budget sees pulled pc s.peer).1;
      })
  polls-IsStale {s} budget h sees pulled pc e =
      subst
        (λ (c : PollPc). IsStale b (record s {
          peer = (poll_step k budget sees pulled c s.peer).0;
          poll = (poll_step k budget sees pulled c s.peer).1;
        }))
        (sym e)
        (unfold poll_step in
          record {
            parked_poll = refl;
            not_kicked = h.not_kicked;
            blocked = h.blocked;
            gone = h.gone;
            silent = h.silent;
            no_timer = h.no_timer;
            no_callback = h.no_callback;
          })

  Step-IsStale :
      {budget : ℕ} {s t : System} (st : Step k budget s t)
      → IsAuthentic st
      → IsStale b s
      → IsStale b t
  unfolding arrive publish_state poll_step
  Step-IsStale {s = s} (arrives p e) clean h = record {
    parked_poll = h.parked_poll;
    not_kicked = h.not_kicked;
    blocked = h.blocked;
    gone = λ q a. ground (arith, h.gone q a);
    silent = λ q. ground (arith, h.silent q);
    no_timer = h.no_timer;
    no_callback = h.no_callback;
  }
  Step-IsStale {s = s} (completes p st e ne) clean h = record {
    parked_poll = h.parked_poll;
    not_kicked = h.not_kicked;
    blocked = h.blocked;
    gone = λ q a. ground (arith, h.gone q a);
    silent = λ q. ground (arith, h.silent q);
    no_timer = h.no_timer;
    no_callback = h.no_callback;
  }
  Step-IsStale (works p e) clean h = works-IsStale h p e
  Step-IsStale (expires a c) clean h = absurd (cc h.no_timer)
  Step-IsStale (fires a) clean h = absurd (cc h.no_callback)
  Step-IsStale (starts a c) clean h = absurd (cc h.not_kicked)
  Step-IsStale {budget} (polls {pc} sees pulled e free) clean h =
      polls-IsStale budget h sees pulled pc (sym e ∙ h.parked_poll)

  Reach-IsStale :
      {budget : ℕ} {s t : System} → IsStale b s → AuthenticReach k budget s t → IsStale b t
  Reach-IsStale h first = h
  Reach-IsStale h (then_ r st clean) = Step-IsStale st clean (Reach-IsStale h r)

-- With wg_headwake on, from a state whose rx_blocked_on holds the address of a packet that was
-- consumed earlier, with the poll parked and nothing on its way to wake it: if no later packet lies at
-- that address, then no run in which every packet is authentic ever wakes the poll, however many
-- packets arrive.
pub stale_head_never_wakes :
    (k : Knobs) (b : ℕ)
    → k.headwake ≡ true
    → {budget : ℕ} {s t : System} → IsStale b s
    → AuthenticReach k budget s t
    → IsAsleep t
stale_head_never_wakes k b on h r =
    let i = Reach-IsStale k b on h r in (i.parked_poll, i.not_kicked)
