-- ===== src/Wake/Inv/Jobs.antt =====
-- Every step of a packet's thread, and of the timer, is one that keeps the phases.
use wireguard_receive_path.Prelude.{
  ℕ, true, false, ◌≡◌, ◌≢◌, inl, inr, Option, none, some, refl, arith, sym, ap, Bool-cases, ◌==◌,
  ==_iff, ◌&&◌,
}
use wireguard_receive_path.Wake.{
  PacketState, uncrypted, is_uncrypted, Knobs, Peer, update, update_self, update_ne,
}
use wireguard_receive_path.Wake.Job.{
  JobPc, absent, linking, decrypting, deciding, arming, starting, batched, cancelling, waking,
  finished, is_crypted, arrive, publish_state, decide, job_step,
}
use wireguard_receive_path.Wake.Poll.{ready_at}
use wireguard_receive_path.Wake.Inv
use wireguard_receive_path.Wake.Inv.Env.{Env}

ready_update :
    (o : Option ℕ) (state : ℕ → PacketState) (p : ℕ) (new : PacketState)
    → (o ≡ some p → is_uncrypted new ≡ false)
    → ready_at o state ≡ true
    → ready_at o (update state p new) ≡ true
ready_update none state p new keep r = r
ready_update (some q) state p new keep r = elim (Bool-cases (p == q)) [
  | inl same ↦ ground (arith, keep (ap some (sym ((==_iff p q).0 same))))
  | inr other ↦ ground arith
]

module _ (k : Knobs) (s : Peer) (jobs : ℕ → JobPc) (p : ℕ) where
  -- The watching job is another one, or goes on watching.
  update-IsWatched :
      (new : JobPc)
      → (Inv.will_wake k s.blocked_on (s.address p) (jobs p) ≡ true
          → Inv.will_wake k s.blocked_on (s.address p) new ≡ true)
      → Inv.IsWatched k s jobs
      → Inv.IsWatched k s (update jobs p new)
  update-IsWatched new keep (inl empty) = inl empty
  update-IsWatched new keep (inr (q, w)) = elim (Bool-cases (p == q)) [
    | inl same ↦ inr (p, rw (update_self jobs p new) (keep (rw ((==_iff p q).0 same) w)))
    | inr other ↦ inr (q, rw (update_ne jobs p new q other) w)
  ]

  -- A step that leaves NAPI, the queue and the packets' states alone.
  quiet :
      (s' : Peer) (new : JobPc)
      → s'.napi ≡ s.napi
      → s'.peeked ≡ s.peeked
      → s'.linked ≡ s.linked
      → s'.address ≡ s.address
      → s'.blocked_on ≡ s.blocked_on
      → s'.state ≡ s.state
      → (Inv.will_wake k s.blocked_on (s.address p) (jobs p) ≡ true
          → Inv.will_wake k s.blocked_on (s.address p) new ≡ true)
      → Env k s jobs s' (update jobs p new)
  quiet s' new n q l a b st keep = record {
    peeked_same = q;
    address_same = a;
    blocked_same = b;
    napi_moved = inl n;
    watched = λ w. inl (rw (q, l, a, b) (update-IsWatched new keep w));
    ready = λ r. rw (q, st) r;
  }

  Env-decide :
      (st : PacketState)
      → k.trig_k ≡ 0
      → jobs p ≡ deciding st
      → Env k s jobs (decide k p st s).0 (update jobs p (decide k p st s).1)
  unfolding decide
  Env-decide st off e = elim (Bool-cases (k.headwake && is_crypted st)) [
    | inl gated ↦ simp gated (quiet s _ refl refl refl refl refl refl (λ w. ground arith))
    | inr stock ↦ simp (stock, off) (quiet s waking refl refl refl refl refl refl (λ w. refl))
  ]

  pub Env-works :
      (k.trig_k ≡ 0)
      → (pc : JobPc) → jobs p ≡ pc
      → Env k s jobs (job_step k p pc s).0 (update jobs p (job_step k p pc s).1)
  unfolding job_step
  Env-works off linking e = quiet s decrypting refl refl refl refl refl refl (λ w. ground arith)
  Env-works off (deciding st) e = Env-decide st off e
  Env-works off waking e = record {
    peeked_same = refl;
    address_same = refl;
    blocked_same = refl;
    napi_moved = inr refl;
    watched = λ w. inr refl;
    ready = λ r. r;
  }
  Env-works off arming e = elim (Bool-cases s.timer_armed) [
    | inl armed ↦ simp armed (quiet s finished refl refl refl refl refl refl (λ w. ground arith))
    | inr free ↦ simp free (quiet _ starting refl refl refl refl refl refl (λ w. ground arith))
  ]
  Env-works off batched e = quiet _ _ refl refl refl refl refl refl (λ w. ground arith)
  Env-works off starting e = quiet _ finished refl refl refl refl refl refl (λ w. ground arith)
  Env-works off cancelling e = quiet _ waking refl refl refl refl refl refl (λ w. refl)
  Env-works off absent e = quiet s absent refl refl refl refl refl refl (λ w. ground arith)
  Env-works off decrypting e = quiet s decrypting refl refl refl refl refl refl (λ w. ground arith)
  Env-works off finished e = quiet s finished refl refl refl refl refl refl (λ w. ground arith)

  -- The first packet of an empty queue is watched: rx_blocked_on lets it through.
  pub Env-arrives :
      jobs p ≡ absent → (s.peeked ≡ some p → ⊥) → Env k s jobs (arrive p s) (update jobs p linking)
  unfolding arrive
  Env-arrives e other = record {
    peeked_same = refl;
    address_same = refl;
    blocked_same = refl;
    napi_moved = inl refl;
    watched = λ w. inl (arrived w);
    ready = λ r. ready_update s.peeked s.state p uncrypted (λ h. absurd (other h)) r;
  }
    where
      arrived : Inv.IsWatched k s jobs → Inv.IsWatched k (arrive p s) (update jobs p linking)
      arrived (inl (a, b, lets)) = inr (p, rw (update_self jobs p linking) (ground arith))
      arrived (inr (q, w)) = inr (q, rw (update_ne jobs p linking q (ground arith)) w)

  pub Env-completes :
      (st : PacketState)
      → jobs p ≡ decrypting
      → st ≢ uncrypted
      → Env k s jobs (publish_state p st s) (update jobs p (deciding st))
  unfolding publish_state
  Env-completes st e ne = record {
    peeked_same = refl;
    address_same = refl;
    blocked_same = refl;
    napi_moved = inl refl;
    watched = λ w. inl (kept w);
    ready = λ r. ready_update s.peeked s.state p st (λ _. ground arith) r;
  }
    where
      kept :
          Inv.IsWatched k s jobs
          → Inv.IsWatched k (publish_state p st s) (update jobs p (deciding st))
      kept (inl w) = inl w
      kept (inr w) = elim (update-IsWatched (deciding st) (λ v. ground arith) (inr w)) [
        | inl w' ↦ inl w'
        | inr w' ↦ inr w'
      ]
