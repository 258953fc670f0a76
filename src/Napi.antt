-- ===== src/Napi.antt =====
-- The NAPI bookkeeping of linux-source/net/core/dev.c that the receive path relies on.
pub mod Laws
use wireguard_receive_path.Prelude.{
  ℕ, ◌-◌, Bool, true, false, not, ◌&&◌, ◌||◌, ltb, ◌==◌, if◌then◌else◌, Option, none, some,
}

-- struct napi_struct: the bits of `state` that these functions touch, whether the instance stands
-- on a poll list, and what napi_complete_done reads.
pub record Napi : Type 0 where
  pub sched : Bool
  pub missed : Bool
  pub disable : Bool
  pub npsvc : Bool
  pub in_busy_poll : Bool
  pub prefer_busy_poll : Bool
  pub threaded : Bool
  pub sched_threaded : Bool
  -- napi->thread is set, and is not the backlog thread
  pub own_thread : Bool
  -- poll_list is not empty
  pub listed : Bool
  pub gro_bitmask : Bool
  pub defer_hard_irqs_count : ℕ
  pub defer_hard_irqs : ℕ
  pub gro_flush_timeout : ℕ
  -- the watchdog timer that ends a deferral
  pub timer : Option ℕ

unfoldable pub napi_schedule_prep : Napi → Bool × Napi
napi_schedule_prep n =
    if n.disable
    then (false, n)
    else (not n.sched, record n { sched = true; missed = n.missed || n.sched })

-- ____napi_schedule, which __napi_schedule calls with interrupts off.
unfoldable pub enqueue_napi : Napi → Napi
enqueue_napi n =
    if n.threaded && n.own_thread
    then record n { sched_threaded = true }
    else record n { listed = true }

-- The inline napi_schedule, as docs/cloudlab/MISSED_REPOLL_PROOF.md quotes it.
unfoldable pub napi_schedule : Napi → Napi
unfolding napi_schedule_prep enqueue_napi
napi_schedule n = let (first, n') = napi_schedule_prep n in if first then enqueue_napi n' else n'

-- The count of deferred interrupts after `work_done`, and the timeout to wait for.
unfoldable pub defer_irqs : Napi → ℕ → Napi × ℕ
defer_irqs n work_done =
    let timeout = if ltb 0 work_done && n.gro_bitmask then n.gro_flush_timeout else 0 in
    let count = if ltb 0 work_done then n.defer_hard_irqs else n.defer_hard_irqs_count in
    if ltb 0 count
    then (record n { defer_hard_irqs_count = count - 1 }, n.gro_flush_timeout)
    else (record n { defer_hard_irqs_count = count }, timeout)

-- The compare-exchange of napi_complete_done: MISSED becomes SCHED.
unfoldable pub release_napi : Napi → Napi
release_napi n = record n {
  sched = n.missed;
  missed = false;
  sched_threaded = false;
  prefer_busy_poll = false;
}

unfoldable pub napi_complete_done : Napi → ℕ → Bool × Napi
unfolding defer_irqs release_napi enqueue_napi
napi_complete_done n work_done =
    if n.npsvc || n.in_busy_poll
    then (false, n)
    else let (n', timeout) = defer_irqs n work_done in
      let n'' = release_napi (record n' { listed = false }) in
      if n.missed then (false, enqueue_napi n'') else (
        not (
            ltb 0 timeout
            && ltb 0 (if ltb 0 work_done then n.defer_hard_irqs else n.defer_hard_irqs_count)),
        if ltb 0 timeout then record n'' { timer = some timeout } else n'',
      )
