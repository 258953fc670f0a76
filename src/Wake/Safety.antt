-- ===== src/Wake/Safety.antt =====
-- No packet is stranded by the stock wake, by wg_headwake or by wg_supp.
use wireguard_receive_path.Prelude.{
  ℕ, true, false, ◌≡◌, inl, inr, none, refl, arith, ap, ◌∙◌, Bool-cases, ◌&&◌, ◌||◌, not, [],
}
use wireguard_receive_path.Napi.Laws.{is_kicked}
use wireguard_receive_path.Wake.{PacketState, crypted, Knobs, Peer, update_self}
use wireguard_receive_path.Wake.Job.{
  JobPc, absent, linking, decrypting, deciding, waking, finished, job_step, decide, publish_state,
  names_head, is_crypted,
}
use wireguard_receive_path.Wake.Poll.{parked}
use wireguard_receive_path.Wake.System.{System, Reach, IsQuiet, Alone, stay, decrypts, goes}
use wireguard_receive_path.Wake.Inv
use wireguard_receive_path.Wake.Inv.{Inv}
use wireguard_receive_path.Wake.Inv.Env.{napi_schedule_lem}
use wireguard_receive_path.Wake.Inv.Reach.{Reach-Inv}

IsQuiet-Inv : {k : Knobs} {s : System} → IsQuiet s → Inv k s
IsQuiet-Inv {k} {s} q = record {
  is_open = record {
    enabled = q.enabled;
    no_netpoll = q.no_netpoll;
    no_busy_poll = q.no_busy_poll;
  };
  phase =
      rw q.no_poll
        (inr (q.not_kicked, q.not_sched, inl (q.no_head, q.no_linked, inr q.not_blocked)));
  unset = λ p h. rw (q.no_job p) refl;
  head_job = λ p h. absurd (cc q.no_head);
  linked_job = λ p h. absurd (cc (rw q.no_linked at h));
}

-- Nothing wakes the poll: it is parked and NAPI is not about to run it.
abbrev pub IsAsleep : System → Type 0
IsAsleep s = (s.poll ≡ parked) × (is_kicked s.peer.napi ≡ false)

abbrev pub HasPackets : Peer → Type 0
HasPackets s = ¬ ((s.peeked ≡ none) × (s.linked ≡ []))

-- The thread can wake the poll by its own steps.
abbrev pub CanWake : Knobs → System → ℕ → Type 0
CanWake k s p = (t : System) × Alone k p s t × (is_kicked t.peer.napi ≡ true)

module _ (k : Knobs) (p : ℕ) (s : System) (off : k.trig_k ≡ 0) where
  from_waking :
      (t : System)
      → Alone k p s t
      → t.jobs p ≡ waking
      → t.peer.napi.disable ≡ false
      → t.peer.napi.sched ≡ false
      → CanWake k s p
  from_waking t run e enabled idle = (_, goes run e, kicked)
    where
      kicked : is_kicked (job_step k p waking t.peer).0.napi ≡ true
      kicked = unfold job_step in ground (arith, napi_schedule_lem t.peer.napi enabled)

  decide-waking :
      (st : PacketState) (q : Peer)
      → (not (k.headwake && is_crypted st) || names_head q.blocked_on (q.address p)) ≡ true
      → decide k p st q ≡ (q, waking)
  unfolding decide
  decide-waking st q h = elim (Bool-cases (k.headwake && is_crypted st)) [
    | inl gated ↦
        let named : names_head q.blocked_on (q.address p) ≡ true = ground arith in
        simp (gated, named) refl
    | inr stock ↦ simp (stock, off) refl
  ]

  from_deciding :
      (t : System) (st : PacketState)
      → Alone k p s t
      → t.jobs p ≡ deciding st
      → (not (k.headwake && is_crypted st) || names_head t.peer.blocked_on (t.peer.address p))
        ≡ true
      → t.peer.napi.disable ≡ false
      → t.peer.napi.sched ≡ false
      → CanWake k s p
  from_deciding t st run e lets enabled idle =
      from_waking _ (goes run e) (update_self t.jobs p _ ∙ ap (λ (x : Peer × JobPc). x.1) woken)
        (ap (λ (x : Peer × JobPc). x.0.napi.disable) woken ∙ enabled)
        (ap (λ (x : Peer × JobPc). x.0.napi.sched) woken ∙ idle)
    where
      woken : job_step k p (deciding st) t.peer ≡ (t.peer, waking)
      woken = unfold job_step in decide-waking st t.peer lets

  from_decrypting :
      (t : System)
      → Alone k p s t
      → t.jobs p ≡ decrypting
      → (not k.headwake || names_head t.peer.blocked_on (t.peer.address p)) ≡ true
      → t.peer.napi.disable ≡ false
      → t.peer.napi.sched ≡ false
      → CanWake k s p
  unfolding publish_state
  from_decrypting t run e lets enabled idle =
      from_deciding _ crypted (decrypts run e) (update_self t.jobs p (deciding crypted))
        (ground arith) enabled idle

  from_linking :
      (t : System)
      → Alone k p s t
      → t.jobs p ≡ linking
      → (not k.headwake || names_head t.peer.blocked_on (t.peer.address p)) ≡ true
      → t.peer.napi.disable ≡ false
      → t.peer.napi.sched ≡ false
      → CanWake k s p
  unfolding job_step
  from_linking t run e lets enabled idle =
      from_decrypting _ (goes run e) (update_self t.jobs p decrypting) lets enabled idle

  -- A thread that will wake the poll does so whatever stage it is at.
  can_wake :
      (pc : JobPc)
      → s.jobs p ≡ pc
      → Inv.will_wake k s.peer.blocked_on (s.peer.address p) pc ≡ true
      → s.peer.napi.disable ≡ false
      → s.peer.napi.sched ≡ false
      → CanWake k s p
  can_wake waking e w = from_waking s stay e
  can_wake (deciding st) e w = from_deciding s st stay e w
  can_wake decrypting e w = from_decrypting s stay e w
  can_wake linking e w = from_linking s stay e w
  can_wake absent e w = absurd (cc)
  can_wake JobPc.arming e w = absurd (cc)
  can_wake JobPc.starting e w = absurd (cc)
  can_wake JobPc.batched e w = absurd (cc)
  can_wake JobPc.cancelling e w = absurd (cc)
  can_wake finished e w = absurd (cc)

-- With wg_trig_k off, and any setting of wg_headwake, wg_supp and wg_steal that stays as it is: from a
-- quiet peer, whose rx_blocked_on is NULL, wherever later packets lie in memory, in every reachable
-- state in which the poll is parked, NAPI is not kicked and packets are queued, some thread that holds
-- a packet, run alone, kicks NAPI.
pub no_packet_stranded :
    {k : Knobs} {budget : ℕ} {s t : System}
    → k.trig_k ≡ 0
    → IsQuiet s
    → Reach k budget s t
    → IsAsleep t
    → HasPackets t.peer
    → (p : ℕ) × CanWake k t p
no_packet_stranded {k} {t = t} off q r (idle, calm) queued = found (rw idle at inv.phase)
  where
    inv : Inv k t
    inv = Reach-Inv off (IsQuiet-Inv q) r

    found : Inv.Phase k parked t.peer t.jobs → (p : ℕ) × CanWake k t p
    found (inl (a, b)) = absurd (cc)
    found (inr (a, b, inl (c, d, e))) = absurd (queued (c, d))
    found (inr (a, b, inr (p, w))) = (p, can_wake k p t off (t.jobs p) refl w inv.is_open.enabled b)
