-- ===== src/Wake/Tests.antt =====
-- Concrete interleavings: the witnesses, and how the two stuck states come about.
use wireguard_receive_path.Prelude.{ℕ, true, false, ◌≡◌, ◌≢◌, inl, none, [], ◌∷◌, refl, arith}
use wireguard_receive_path.Napi.{Napi, napi_schedule, napi_complete_done}
use wireguard_receive_path.Napi.Laws.{is_kicked, napi_complete_done-napi_schedule}
use wireguard_receive_path.Wake.{uncrypted, crypted, Knobs}
use wireguard_receive_path.Wake.Job.{JobPc, absent, arrive, publish_state, decide, job_step}
use wireguard_receive_path.Wake.Poll.{parked, peek_head, peek_rest, poll_step, poll_start}
use wireguard_receive_path.Wake.System.{
  System, arrives, completes, works, starts, polls, Reach, here, next, IsQuiet,
}
use wireguard_receive_path.Wake.Safety.{IsAsleep, CanWake, no_packet_stranded}
use wireguard_receive_path.Wake.Stale.{
  IsStale, AuthenticReach, first, then_, stale_head_never_wakes,
}

abbrev idle_napi : Napi
idle_napi = record {
  sched = false;
  missed = false;
  disable = false;
  npsvc = false;
  in_busy_poll = false;
  prefer_busy_poll = false;
  threaded = false;
  sched_threaded = false;
  own_thread = false;
  listed = false;
  gro_bitmask = false;
  defer_hard_irqs_count = 0;
  defer_hard_irqs = 0;
  gro_flush_timeout = 0;
  timer = none;
}

abbrev quiet : System
quiet = record {
  peer = record {
    address = λ p. p;
    napi = idle_napi;
    peeked = none;
    linked = [];
    state = λ _. uncrypted;
    blocked_on = none;
    rx_ready = 0;
    timer_armed = false;
    timer_active = false;
  };
  jobs = λ _. absent;
  poll = parked;
  firing = false;
}

quiet-IsQuiet : IsQuiet quiet
quiet-IsQuiet = record {
  enabled = refl;
  no_netpoll = refl;
  no_busy_poll = refl;
  not_sched = refl;
  not_kicked = refl;
  no_head = refl;
  no_linked = refl;
  not_blocked = refl;
  no_job = λ p. refl;
  no_poll = refl;
}

abbrev head_gated : Knobs
head_gated = record { trig_k = 0; supp = true; headwake = true; steal = 0 }

abbrev stock : Knobs
stock = record { trig_k = 0; supp = false; headwake = false; steal = 0 }

abbrev batching : Knobs
batching = record { trig_k = 2; supp = false; headwake = false; steal = 0 }

running : Napi
running = record {
  sched = true;
  missed = false;
  disable = false;
  npsvc = false;
  in_busy_poll = false;
  prefer_busy_poll = false;
  threaded = true;
  sched_threaded = false;
  own_thread = true;
  listed = false;
  gro_bitmask = true;
  defer_hard_irqs_count = 0;
  defer_hard_irqs = 2;
  gro_flush_timeout = 20000;
  timer = none;
}

napi_complete_done-napi_schedule_example :
    ((napi_complete_done (napi_schedule running) 5).1.sched ≡ true)
    × (is_kicked (napi_complete_done (napi_schedule running) 5).1 ≡ true)
    × ((napi_complete_done (napi_schedule running) 5).1.missed ≡ false)
unfolding running
napi_complete_done-napi_schedule_example =
    napi_complete_done-napi_schedule running 5 refl refl refl refl

authentic : crypted ≢ uncrypted
authentic = cc

-- A state, and how it was reached.
record Run (k : Knobs) (from : System) : Type 0 where
  last : System
  run : Reach k 64 from last

-- One packet is queued behind a parked poll.
abbrev one_queued : Run head_gated quiet
unfolding arrive job_step
one_queued = record { last = _; run = next (next here (arrives 7 refl)) (works 7 refl) }

no_packet_stranded_example : (p : ℕ) × CanWake head_gated one_queued.last p
unfolding arrive job_step
no_packet_stranded_example =
    no_packet_stranded {k = head_gated} {s = quiet} {t = one_queued.last} refl quiet-IsQuiet
      one_queued.run (refl, refl) (λ e. cc e.1)

-- wg_headwake is on: packet 1 is decrypted before packet 0, on which the poll parks.
abbrev parked_on_0 : Run head_gated quiet
unfolding arrive publish_state job_step decide poll_step poll_start peek_head peek_rest
    napi_schedule napi_complete_done
parked_on_0 = record {
  last = _;
  run =
      next
        (next
          (next
            (next
              (next
                (next
                  (next
                    (next
                      (next
                        (next
                          (next
                            (next
                              (next
                                (next (next (next here (arrives 0 refl)) (works 0 refl))
                                  (arrives 1 refl))
                                (works 1 refl))
                              (completes 1 crypted refl authentic))
                            (works 1 refl))
                          (works 1 refl))
                        (starts refl refl))
                      (polls true false refl (inl refl)))
                    (polls true false refl (inl refl)))
                  (polls true false refl (inl refl)))
                (polls true false refl (inl refl)))
              (polls true false refl (inl refl)))
            (polls true false refl (inl refl)))
          (polls true false refl (inl refl)))
        (polls true false refl (inl refl));
}

-- It is switched off: packet 0 is decrypted, and both are delivered.
abbrev drained : Run stock parked_on_0.last
unfolding parked_on_0
drained = record {
  last = _;
  run =
      (next
        (next
          (next
            (next
              (next
                (next (next (next here (completes 0 crypted refl authentic)) (works 0 refl))
                  (works 0 refl))
                (starts refl refl))
              (polls true false refl (inl refl)))
            (polls true false refl (inl refl)))
          (polls true false refl (inl refl)))
        (polls true false refl (inl refl)));
}

-- rx_blocked_on still names packet 0.
drained-IsStale : IsStale 0 drained.last
unfolding drained
drained-IsStale = record {
  parked_poll = refl;
  not_kicked = refl;
  blocked = refl;
  gone = λ p e. ground (arith, e);
  silent = λ p. ground arith;
  no_timer = refl;
  no_callback = refl;
}

abbrev late_cancel : Run batching quiet
unfolding arrive publish_state job_step decide poll_step poll_start peek_head peek_rest
    napi_schedule napi_complete_done
late_cancel = record {
  last = _;
  run =
      (next
        (next
          (next
            (next
              (next
                (next
                  (next
                    (next
                      (next
                        (next
                          (next
                            (next
                              (next
                                (next
                                  (next
                                    (next
                                      (next
                                        (next
                                          (next
                                            (next
                                              (next
                                                (next
                                                  (next
                                                    (next
                                                      (next
                                                        (next
                                                          (next
                                                            (next
                                                            (next
                                                            (next
                                                            (next
                                                            (next
                                                            (next
                                                            (next (next here (arrives 0 refl))
                                                            (works 0 refl))
                                                            (arrives 1 refl))
                                                            (works 1 refl))
                                                            (arrives 2 refl))
                                                            (works 2 refl))
                                                            (completes 0 crypted refl authentic))
                                                            (works 0 refl))
                                                            (works 0 refl))
                                                          (works 0 refl))
                                                        (completes 1 crypted refl authentic))
                                                      (works 1 refl))
                                                    (works 1 refl))
                                                  (completes 2 crypted refl authentic))
                                                (works 2 refl))
                                              (works 2 refl))
                                            (works 2 refl))
                                          (starts refl refl))
                                        (arrives 3 refl))
                                      (works 3 refl))
                                    (completes 3 crypted refl authentic))
                                  (works 3 refl))
                                (works 3 refl))
                              (works 3 refl))
                            (works 1 refl))
                          (works 1 refl))
                        (polls true false refl (inl refl)))
                      (polls true false refl (inl refl)))
                    (polls true false refl (inl refl)))
                  (polls true false refl (inl refl)))
                (polls true false refl (inl refl)))
              (polls true false refl (inl refl)))
            (starts refl refl))
          (polls true false refl (inl refl)))
        (polls true false refl (inl refl)));
}

-- Packet 9 arrives, is decrypted, and is never delivered.
abbrev after_stale : (t : System) × AuthenticReach head_gated 64 drained.last t
unfolding drained
after_stale = (
  _,
  (then_
      (then_ (then_ (then_ first (arrives 9 refl) tt) (works 9 refl) tt)
        (completes 9 crypted refl authentic) refl)
      (works 9 refl) tt),
)

stale_head_never_wakes_example : IsAsleep after_stale.0
unfolding drained
stale_head_never_wakes_example =
    stale_head_never_wakes head_gated 0 refl drained-IsStale after_stale.1

-- One more packet is below the count, and waits for a timer that is not there.
abbrev after_lost : (t : System) × AuthenticReach batching 64 late_cancel.last t
unfolding late_cancel
after_lost = (
  _,
  (then_
      (then_
        (then_ (then_ (then_ first (arrives 9 refl) tt) (works 9 refl) tt)
          (completes 9 crypted refl authentic) refl)
        (works 9 refl) tt)
      (works 9 refl) tt),
)

-- It is queued, decrypted, and the poll sleeps.
lost_packet :
    IsAsleep after_lost.0
    × (after_lost.0.peer.linked ≡ 9 ∷ [])
    × (after_lost.0.peer.state 9 ≡ crypted)
    × (after_lost.0.jobs 9 ≡ JobPc.finished)
unfolding after_lost
lost_packet = ((refl, refl), refl, refl, refl)
