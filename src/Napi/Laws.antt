-- ===== src/Napi/Laws.antt =====
-- No wake is lost between napi_schedule and napi_complete_done.
use wireguard_receive_path.Prelude.{ℕ, Bool, true, false, ◌||◌, ◌≡◌, arith}
use wireguard_receive_path.Napi.{Napi, napi_schedule, napi_complete_done}

-- The poll will run: the instance stands on a poll list or its thread was told.
abbrev pub is_kicked : Napi → Bool
is_kicked n = n.listed || n.sched_threaded

-- On an instance that is not disabled, not polled by netpoll and not in a busy poll, a wake that comes
-- while a poll runs is remembered: when the poll completes, NAPI stays scheduled and is kicked once
-- more, whatever work was done.
pub napi_complete_done-napi_schedule :
    (n : Napi) (work : ℕ)
    → n.sched ≡ true
    → n.disable ≡ false
    → n.npsvc ≡ false
    → n.in_busy_poll ≡ false
    → ((napi_complete_done (napi_schedule n) work).1.sched ≡ true)
      × (is_kicked (napi_complete_done (napi_schedule n) work).1 ≡ true)
      × ((napi_complete_done (napi_schedule n) work).1.missed ≡ false)
unfolding napi_complete_done napi_schedule
napi_complete_done-napi_schedule n work s d p b = ground arith

-- What a completion leaves: NAPI stays scheduled, and kicked, exactly if MISSED was set.
pub napi_complete_done_lem :
    (n : Napi) (work : ℕ)
    → n.npsvc ≡ false
    → n.in_busy_poll ≡ false
    → ((napi_complete_done n work).1.sched ≡ n.missed)
      × (is_kicked (napi_complete_done n work).1 ≡ n.missed)
      × ((napi_complete_done n work).1.disable ≡ n.disable)
      × ((napi_complete_done n work).1.npsvc ≡ false)
      × ((napi_complete_done n work).1.in_busy_poll ≡ false)
unfolding napi_complete_done
napi_complete_done_lem n work p b = ground arith
