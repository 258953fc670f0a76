-- ===== src/Wake/Inv/Reach.antt =====
-- The invariant holds at the start and is kept by every step of every thread.
use wireguard_receive_path.Prelude.{
  ℕ, Bool, true, false, ◌≡◌, ◌≢◌, ◌⊎◌, inl, inr, some, refl, arith, sym, ap, ◌∙◌, ◌==◌, ◌||◌, List,
  [], ◌∷◌, ◌++◌,
}
use wireguard_receive_path.Napi.{Napi, napi_schedule}
use wireguard_receive_path.Wake.{PacketState, uncrypted, is_uncrypted, Knobs, Peer, update}
use wireguard_receive_path.Wake.Job.{
  JobPc, absent, linking, decrypting, deciding, arrive, publish_state, job_step, decide,
}
use wireguard_receive_path.Wake.Poll.{parked, peek, poll_step, poll_start}
use wireguard_receive_path.Wake.System.{
  System, Step, arrives, completes, works, expires, fires, starts, polls, Reach, here, next,
}
use wireguard_receive_path.Wake.Inv.Env.{Env, Phase-Env, napi_schedule-IsOpen}
use wireguard_receive_path.Wake.Inv.Jobs.{Env-works, Env-arrives, Env-completes}
use wireguard_receive_path.Wake.Inv.Polls.{peek-NoneSeen, peek-head_job}
use wireguard_receive_path.Wake.Inv.PollPhase.{
  poll_step-Phase, poll_step-IsOpen, poll_step-Consumed, Consumed,
}
use wireguard_receive_path.Wake.Inv
use wireguard_receive_path.Wake.Inv.{Inv}

-- What a step of a packet's thread does to the facts about jobs.
record Kept (s s' : Peer) (jobs jobs' : ℕ → JobPc) : Type 0 where
  unset : (p : ℕ) → is_uncrypted (s'.state p) ≡ true → Inv.is_unset (jobs' p) ≡ true
  head_job : (p : ℕ) → s'.peeked ≡ some p → Inv.is_absent (jobs' p) ≡ false
  linked_job : (p : ℕ) → Inv.elem p s'.linked ≡ true → Inv.is_absent (jobs' p) ≡ false

-- A thread's step leaves the queue and the states alone, and never goes back.
record Forward (k : Knobs) (p : ℕ) (pc : JobPc) (s : Peer) : Type 0 where
  state : (job_step k p pc s).0.state ≡ s.state
  peeked : (job_step k p pc s).0.peeked ≡ s.peeked
  linked : (job_step k p pc s).0.linked ≡ s.linked
  unset : Inv.is_unset pc ≡ true → Inv.is_unset (job_step k p pc s).1 ≡ true
  absent_same : Inv.is_absent (job_step k p pc s).1 ≡ Inv.is_absent pc

job_step-Forward : (k : Knobs) (p : ℕ) (pc : JobPc) (s : Peer) → Forward k p pc s
unfolding job_step decide
job_step-Forward k p (deciding st) s = ground arith
job_step-Forward k p pc s = ground arith

elem-append : (q p : ℕ) (l : List ℕ) → Inv.elem q (l ++ (p ∷ [])) ≡ (Inv.elem q l || (p == q))
elem-append q p [] = ground arith
elem-append q p (x ∷ l) = ground (arith, elem-append q p l)

module _ {k : Knobs} {s : System} (inv : Inv k s) (off : k.trig_k ≡ 0) where
  moved-IsOpen : (n : Napi) → (n ≡ s.peer.napi) ⊎ (n ≡ napi_schedule s.peer.napi) → Inv.IsOpen n
  moved-IsOpen n (inl e) = rw e inv.is_open
  moved-IsOpen n (inr e) = rw e (napi_schedule-IsOpen inv.is_open)

  -- A step of a thread that is not the poll.
  outside :
      (peer : Peer) (jobs : ℕ → JobPc) (firing : Bool)
      → Env k s.peer s.jobs peer jobs
      → Kept s.peer peer s.jobs jobs
      → Inv k (record { peer = peer; jobs = jobs; poll = s.poll; firing = firing })
  outside peer jobs firing env kept = record {
    is_open = moved-IsOpen peer.napi env.napi_moved;
    phase = Phase-Env k s.peer s.jobs peer jobs env inv.is_open.enabled s.poll inv.phase;
    unset = kept.unset;
    head_job = kept.head_job;
    linked_job = kept.linked_job;
  }

  -- The job of `p` moves on to `new`; the queue and the states stay.
  moved :
      (p : ℕ) (new : JobPc) (peer : Peer)
      → peer.state ≡ s.peer.state
      → peer.peeked ≡ s.peer.peeked
      → peer.linked ≡ s.peer.linked
      → (Inv.is_unset (s.jobs p) ≡ true → Inv.is_unset new ≡ true)
      → Inv.is_absent new ≡ Inv.is_absent (s.jobs p)
      → Kept s.peer peer s.jobs (update s.jobs p new)
  moved p new peer st pk ln u a = record {
    unset = λ q h. ground (arith, inv.unset q (rw st at h));
    head_job = λ q h. ground (arith, inv.head_job q (sym pk ∙ h));
    linked_job = λ q h. ground (arith, inv.linked_job q (rw ln at h));
  }

  same_Kept :
      (peer : Peer)
      → peer.state ≡ s.peer.state
      → peer.peeked ≡ s.peer.peeked
      → peer.linked ≡ s.peer.linked
      → Kept s.peer peer s.jobs s.jobs
  same_Kept peer st pk ln = record {
    unset = λ q h. inv.unset q (rw st at h);
    head_job = λ q h. inv.head_job q (sym pk ∙ h);
    linked_job = λ q h. inv.linked_job q (rw ln at h);
  }

  works_Kept :
      (p : ℕ) {pc : JobPc}
      → s.jobs p ≡ pc
      → Kept s.peer (job_step k p pc s.peer).0 s.jobs (update s.jobs p (job_step k p pc s.peer).1)
  works_Kept p {pc} e =
      let f = job_step-Forward k p pc s.peer in
      moved p _ _ f.state f.peeked f.linked (λ u. f.unset (rw e at u))
        (f.absent_same ∙ ap Inv.is_absent (sym e))

  arrives_Kept :
      (p : ℕ) → s.jobs p ≡ absent → Kept s.peer (arrive p s.peer) s.jobs (update s.jobs p linking)
  unfolding arrive
  arrives_Kept p e = record {
    unset = λ q h. ground (arith, inv.unset q);
    head_job = λ q h. ground (arith, inv.head_job q h);
    linked_job = λ q h. ground (arith, inv.linked_job q, elem-append q p s.peer.linked);
  }

  completes_Kept :
      (p : ℕ) (st : PacketState)
      → s.jobs p ≡ decrypting
      → st ≢ uncrypted
      → Kept s.peer (publish_state p st s.peer) s.jobs (update s.jobs p (deciding st))
  unfolding publish_state
  completes_Kept p st e ne = record {
    unset = λ q h. ground (arith, inv.unset q);
    head_job = λ q h. ground (arith, inv.head_job q h);
    linked_job = λ q h. ground (arith, inv.linked_job q h);
  }

-- Every step of every thread keeps the invariant, while the trigger is off.
pub Step-Inv :
    {k : Knobs} {budget : ℕ} {s t : System} → k.trig_k ≡ 0 → Step k budget s t → Inv k s → Inv k t
unfolding poll_start
Step-Inv {k} {s = s} off (arrives p e) inv =
    outside inv off _ _ s.firing (Env-arrives k s.peer s.jobs p e fresh) (arrives_Kept inv off p e)
  where
    fresh : s.peer.peeked ≡ some p → ⊥
    fresh h = ground (arith, inv.head_job p h)
Step-Inv {k} {s = s} off (completes p st e ne) inv =
    outside inv off _ _ s.firing (Env-completes k s.peer s.jobs p st e ne)
      (completes_Kept inv off p st e ne)
Step-Inv {k} {s = s} off (works p {pc} e) inv =
    outside inv off _ _ s.firing (Env-works k s.peer s.jobs p off pc e) (works_Kept inv off p e)
Step-Inv {k} {s = s} off (expires a b) inv =
    outside inv off _ s.jobs true
      (record {
        peeked_same = refl;
        address_same = refl;
        blocked_same = refl;
        napi_moved = inl refl;
        watched = λ w. inl w;
        ready = λ r. r;
      })
      (same_Kept inv off _ refl refl refl)
Step-Inv {k} {s = s} off (fires a) inv =
    outside inv off _ s.jobs false
      (record {
        peeked_same = refl;
        address_same = refl;
        blocked_same = refl;
        napi_moved = inr refl;
        watched = λ w. inr refl;
        ready = λ r. r;
      })
      (same_Kept inv off _ refl refl refl)
Step-Inv {k} {s = s} off (starts idle kick) inv = record {
  is_open = started_open;
  phase = started (rw idle at inv.phase);
  unset = inv.unset;
  head_job = inv.head_job;
  linked_job = inv.linked_job;
}
  where
    started_open : Inv.IsOpen (poll_start s.peer).0.napi
    started_open = unfold poll_start in ground (arith, inv.is_open)

    started :
        Inv.Phase k parked s.peer s.jobs
        → Inv.Phase k (poll_start s.peer).1 (poll_start s.peer).0 s.jobs
    started (inl (a, b)) = unfold poll_start in b
    started (inr (a, b, w)) = absurd (cc)
Step-Inv {k} {budget} {s = s} off (polls {pc} sees pulled e free) inv = record {
  is_open = poll_step-IsOpen k budget sees pulled pc s.peer inv.is_open;
  phase =
      poll_step-Phase k budget sees pulled s.peer s.jobs inv.is_open
        (peek-NoneSeen sees s.peer s.jobs free) inv.unset shown pc (rw e at inv.phase);
  unset = λ p h. inv.unset p (rw c.state at h);
  head_job = λ p h. queued p (c.head p h);
  linked_job = λ p h. inv.linked_job p (c.rest p h);
}
  where
    c : Consumed s.peer (poll_step k budget sees pulled pc s.peer).0
    c = poll_step-Consumed k budget sees pulled pc s.peer

    queued :
        (p : ℕ)
        → (s.peer.peeked ≡ some p) ⊎ (Inv.elem p s.peer.linked ≡ true)
        → Inv.is_absent (s.jobs p) ≡ false
    queued p (inl h) = inv.head_job p h
    queued p (inr h) = inv.linked_job p h

    shown : (p : ℕ) → (peek sees s.peer).peeked ≡ some p → Inv.is_absent (s.jobs p) ≡ false
    shown p h = queued p (peek-head_job sees s.peer.peeked s.peer.linked p h)

pub Reach-Inv :
    {k : Knobs} {budget : ℕ} {s t : System} → k.trig_k ≡ 0 → Inv k s → Reach k budget s t → Inv k t
Reach-Inv off inv here = inv
Reach-Inv off inv (next r st) = Step-Inv off st (Reach-Inv off inv r)
