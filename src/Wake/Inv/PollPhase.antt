-- ===== src/Wake/Inv/PollPhase.antt =====
-- Every step of the poll leads from its phase to the next one.
use wireguard_receive_path.Prelude.{
  ℕ, ◌+◌, Bool, true, false, ◌≡◌, ◌⊎◌, inl, inr, none, some, refl, arith, sym, ◌∙◌, Bool-cases,
  ◌&&◌, leb, ◌==◌,
}
use wireguard_receive_path.Napi.{napi_complete_done}
use wireguard_receive_path.Napi.Laws.{is_kicked, napi_complete_done_lem}
use wireguard_receive_path.Wake.{is_uncrypted, Knobs, Peer}
use wireguard_receive_path.Wake.Job.{JobPc}
use wireguard_receive_path.Wake.Poll.{
  PollPc, parked, deliver, steal, publish, store, address_of, recheck, supp_test, supp_clear,
  supp_recheck, complete, peek, is_ready, is_blocked, after_publish, after_steal, poll_step,
}
use wireguard_receive_path.Wake.Inv
use wireguard_receive_path.Wake.Inv.Polls.{
  NoneSeen, peek-head_job, peek-rest_job, peek-IsCovered, peek_lets, is_ready-IsWatched,
}

after_publish-Phase :
    (k : Knobs) (work : ℕ) (s : Peer) (jobs : ℕ → JobPc)
    → s.napi.sched ≡ true
    → Inv.LetsHead k s
    → Inv.IsCovered k s jobs
    → Inv.Phase k (after_publish k work) s jobs
after_publish-Phase k work s jobs on lets c = elim (Bool-cases k.supp) [
  | inl e ↦ simp e (on, lets, c)
  | inr e ↦ simp e (on, c)
]

after_steal-Phase :
    (k : Knobs) (work : ℕ) (s : Peer) (jobs : ℕ → JobPc)
    → s.napi.sched ≡ true
    → (k.headwake ≡ true) ⊎ Inv.IsCovered k s jobs
    → Inv.Phase k (after_steal k work) s jobs
after_steal-Phase k work s jobs on c = elim (Bool-cases k.headwake) [
  | inl e ↦ simp e (on, refl)
  | inr e ↦
      simp e (
        after_publish-Phase k work s jobs on (inl e) (elim c [ inl h ↦ absurd (cc) | inr c' ↦ c' ]))
]

module _ (k : Knobs) (budget : ℕ) (sees pulled : Bool) (s : Peer) (jobs : ℕ → JobPc)
    (is_open : Inv.IsOpen s.napi) (none_seen : NoneSeen (peek sees s) jobs)
    (unset : (p : ℕ) → is_uncrypted (s.state p) ≡ true → Inv.is_unset (jobs p) ≡ true)
    (head_job : (p : ℕ) → (peek sees s).peeked ≡ some p → Inv.is_absent (jobs p) ≡ false) where
  -- What a look at the head that does not find it ready says.
  looked :
      Inv.LetsHead k (peek sees s)
      → is_ready (peek sees s) ≡ false
      → Inv.IsWatched k (peek sees s) jobs
  looked lets r = is_ready-IsWatched k (peek sees s) jobs unset head_job none_seen lets r

  deliver-Phase :
      (work : ℕ)
      → s.napi.sched ≡ true
      → Inv.Phase k
          (poll_step k budget sees pulled (deliver work) s).1
          (poll_step k budget sees pulled (deliver work) s).0
          jobs
  unfolding poll_step
  deliver-Phase work on = elim (Bool-cases (is_ready (peek sees s))) [
    | inl r ↦ elim (Bool-cases (leb budget (work + 1))) [
      | inl full ↦ simp (r, full) (inl (refl, on))
      | inr more ↦ simp (r, more) on
    ]
    | inr r ↦ elim (Bool-cases (k.steal == 0)) [
      | inl off ↦ simp (r, off) (after_steal-Phase k work (peek sees s) jobs on (stopped r))
      | inr by ↦ simp (r, by) (on, stopped r)
    ]
  ]
    where
      stopped :
          is_ready (peek sees s) ≡ false → (k.headwake ≡ true) ⊎ Inv.IsCovered k (peek sees s) jobs
      stopped r = elim (Bool-cases k.headwake) [
        | inl h ↦ inl h
        | inr h ↦ inr (inl (looked (inl h) r))
      ]

  steal-Phase :
      (work : ℕ)
      → s.napi.sched ≡ true
      → (k.headwake ≡ true) ⊎ Inv.IsCovered k s jobs
      → Inv.Phase k
          (poll_step k budget sees pulled (steal work) s).1
          (poll_step k budget sees pulled (steal work) s).0
          jobs
  unfolding poll_step
  steal-Phase work on c = elim (Bool-cases (pulled && is_ready (peek sees s))) [
    | inl again ↦ simp again on
    | inr go ↦ simp go (
        after_steal-Phase k work (peek sees s) jobs on
          (elim c [ inl h ↦ inl h | inr c' ↦ inr (peek-IsCovered k sees s jobs c') ]))
  ]

  recheck-Phase :
      (work : ℕ)
      → s.napi.sched ≡ true
      → s.blocked_on ≡ address_of s.address s.peeked
      → Inv.Phase k
          (poll_step k budget sees pulled (recheck work) s).1
          (poll_step k budget sees pulled (recheck work) s).0
          jobs
  unfolding poll_step
  recheck-Phase work on b = elim (Bool-cases (is_ready (peek sees s))) [
    | inl r ↦ simp r (after_publish-Phase k work _ jobs on lets (inr refl))
    | inr r ↦ simp r (after_publish-Phase k work _ jobs on lets (inl (looked lets r)))
  ]
    where
      lets : Inv.LetsHead k (peek sees s)
      lets = peek_lets k sees s jobs (inr (inr b))

  supp_test-Phase :
      (work : ℕ)
      → s.napi.sched ≡ true
      → Inv.LetsHead k s
      → Inv.IsCovered k s jobs
      → Inv.Phase k
          (poll_step k budget sees pulled (supp_test work) s).1
          (poll_step k budget sees pulled (supp_test work) s).0
          jobs
  unfolding poll_step
  supp_test-Phase work on lets c = elim (Bool-cases (is_blocked (peek sees s))) [
    | inl b ↦ simp b (on, peek_lets k sees s jobs lets)
    | inr b ↦ simp b (on, peek-IsCovered k sees s jobs c)
  ]

  supp_recheck-Phase :
      (work : ℕ)
      → s.napi.sched ≡ true
      → Inv.LetsHead k s
      → Inv.Phase k
          (poll_step k budget sees pulled (supp_recheck work) s).1
          (poll_step k budget sees pulled (supp_recheck work) s).0
          jobs
  unfolding poll_step
  supp_recheck-Phase work on lets = elim (Bool-cases (is_ready (peek sees s))) [
    | inl r ↦ simp r (on, inr refl)
    | inr r ↦ simp r (on, inl (looked (peek_lets k sees s jobs lets) r))
  ]

  complete-Phase :
      (work : ℕ)
      → Inv.IsCovered k s jobs
      → Inv.Phase k
          (poll_step k budget sees pulled (complete work) s).1
          (poll_step k budget sees pulled (complete work) s).0
          jobs
  unfolding poll_step
  complete-Phase work c = elim (Bool-cases s.napi.missed) [
    | inl m ↦ inl (done.1 ∙ m, done.0 ∙ m)
    | inr m ↦ inr (done.1 ∙ m, done.0 ∙ m, elim c [ inl w ↦ w | inr h ↦ absurd (cc) ])
  ]
    where
      done :
          ((napi_complete_done s.napi work).1.sched ≡ s.napi.missed)
          × (is_kicked (napi_complete_done s.napi work).1 ≡ s.napi.missed)
          × ((napi_complete_done s.napi work).1.disable ≡ s.napi.disable)
          × ((napi_complete_done s.napi work).1.npsvc ≡ false)
          × ((napi_complete_done s.napi work).1.in_busy_poll ≡ false)
      done = napi_complete_done_lem s.napi work is_open.no_netpoll is_open.no_busy_poll

  pub poll_step-Phase :
      (pc : PollPc)
      → Inv.Phase k pc s jobs
      → Inv.Phase k
          (poll_step k budget sees pulled pc s).1
          (poll_step k budget sees pulled pc s).0
          jobs
  unfolding poll_step
  poll_step-Phase parked h = h
  poll_step-Phase (deliver work) on = deliver-Phase work on
  poll_step-Phase (steal work) (on, c) = steal-Phase work on c
  poll_step-Phase (publish work) (on, h) = (on, refl)
  poll_step-Phase (store work head) (on, h) = (on, h)
  poll_step-Phase (recheck work) (on, b) = recheck-Phase work on b
  poll_step-Phase (supp_test work) (on, lets, c) = supp_test-Phase work on lets c
  poll_step-Phase (supp_clear work) (on, lets) = (on, lets)
  poll_step-Phase (supp_recheck work) (on, lets) = supp_recheck-Phase work on lets
  poll_step-Phase (complete work) (on, c) = complete-Phase work c

-- What a step of the poll does to the queue: states stay, and nothing is queued that was not.
pub record Consumed (s s' : Peer) : Type 0 where
  pub state : s'.state ≡ s.state
  pub head : (p : ℕ) → s'.peeked ≡ some p → (s.peeked ≡ some p) ⊎ (Inv.elem p s.linked ≡ true)
  pub rest : (p : ℕ) → Inv.elem p s'.linked ≡ true → Inv.elem p s.linked ≡ true

same-Consumed :
    (s s' : Peer) → s'.state ≡ s.state → s'.peeked ≡ s.peeked → s'.linked ≡ s.linked → Consumed s s'
same-Consumed s s' a b c = record {
  state = a;
  head = λ p e. inl (sym b ∙ e);
  rest = λ p e. rw c at e;
}

peek-Consumed :
    (sees : Bool) (s s' : Peer)
    → s'.state ≡ s.state
    → (s'.peeked ≡ (peek sees s).peeked) ⊎ (s'.peeked ≡ none)
    → s'.linked ≡ (peek sees s).linked
    → Consumed s s'
peek-Consumed sees s s' a b c = record {
  state = a;
  head = λ p e. elim b [
    | inl shown ↦ peek-head_job sees s.peeked s.linked p (sym shown ∙ e)
    | inr gone ↦ absurd (cc)
  ];
  rest = λ p e. peek-rest_job sees s.peeked s.linked p (rw c at e);
}

pub poll_step-Consumed :
    (k : Knobs) (budget : ℕ) (sees pulled : Bool) (pc : PollPc) (s : Peer)
    → Consumed s (poll_step k budget sees pulled pc s).0
unfolding poll_step
poll_step-Consumed k budget sees pulled parked s = same-Consumed s s refl refl refl
poll_step-Consumed k budget sees pulled (deliver work) s =
    elim (Bool-cases (is_ready (peek sees s))) [
      | inl r ↦ elim (Bool-cases (leb budget (work + 1))) [
        | inl full ↦ simp (r, full) (peek-Consumed sees s _ refl (inr refl) refl)
        | inr more ↦ simp (r, more) (peek-Consumed sees s _ refl (inr refl) refl)
      ]
      | inr r ↦ simp r (peek-Consumed sees s _ refl (inl refl) refl)
    ]
poll_step-Consumed k budget sees pulled (steal work) s = peek-Consumed sees s _ refl (inl refl) refl
poll_step-Consumed k budget sees pulled (publish work) s =
    peek-Consumed sees s _ refl (inl refl) refl
poll_step-Consumed k budget sees pulled (store work head) s = same-Consumed s _ refl refl refl
poll_step-Consumed k budget sees pulled (recheck work) s =
    elim (Bool-cases (is_ready (peek sees s))) [
      | inl r ↦ simp r (peek-Consumed sees s _ refl (inl refl) refl)
      | inr r ↦ simp r (peek-Consumed sees s _ refl (inl refl) refl)
    ]
poll_step-Consumed k budget sees pulled (supp_test work) s =
    peek-Consumed sees s _ refl (inl refl) refl
poll_step-Consumed k budget sees pulled (supp_clear work) s = same-Consumed s _ refl refl refl
poll_step-Consumed k budget sees pulled (supp_recheck work) s =
    elim (Bool-cases (is_ready (peek sees s))) [
      | inl r ↦ simp r (peek-Consumed sees s _ refl (inl refl) refl)
      | inr r ↦ simp r (peek-Consumed sees s _ refl (inl refl) refl)
    ]
poll_step-Consumed k budget sees pulled (complete work) s = same-Consumed s _ refl refl refl

pub poll_step-IsOpen :
    (k : Knobs) (budget : ℕ) (sees pulled : Bool) (pc : PollPc) (s : Peer)
    → Inv.IsOpen s.napi
    → Inv.IsOpen (poll_step k budget sees pulled pc s).0.napi
unfolding poll_step
poll_step-IsOpen k budget sees pulled (complete work) s o =
    let (a, b, c, d, e) = napi_complete_done_lem s.napi work o.no_netpoll o.no_busy_poll in
    record { enabled = c ∙ o.enabled; no_netpoll = d; no_busy_poll = e }
poll_step-IsOpen k budget sees pulled pc s o = ground arith
