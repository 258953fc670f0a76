-- ===== src/Wake/LostTimer.antt =====
-- What a lost coalescing timer does: rx_timer_armed is set and no timer is pending.
use wireguard_receive_path.Prelude.{ℕ, ◌≤◌, Bool, true, false, ◌≡◌, ◌⊎◌}
use wireguard_receive_path.Napi.Laws.{is_kicked}
use wireguard_receive_path.Wake.{Knobs, Peer}
use wireguard_receive_path.Wake.Job.{
  JobPc, absent, linking, decrypting, deciding, arming, finished, is_crypted, job_step,
}
use wireguard_receive_path.Wake.Poll.{parked}
use wireguard_receive_path.Wake.System.{System}
use wireguard_receive_path.Wake.Stale.{AuthenticReach, first, then_}

-- Jobs that have not come to the count, or wait for the timer.
abbrev is_waiting : JobPc → Bool
is_waiting absent = true
is_waiting linking = true
is_waiting decrypting = true
is_waiting (deciding st) = is_crypted st
is_waiting arming = true
is_waiting finished = true
is_waiting _ = false

-- The poll is parked, the flag claims a pending timer, and there is none.
pub record IsLost (s : System) : Type 0 where
  pub parked_poll : s.poll ≡ parked
  pub not_kicked : is_kicked s.peer.napi ≡ false
  pub armed : s.peer.timer_armed ≡ true
  pub no_timer : s.peer.timer_active ≡ false
  pub no_callback : s.firing ≡ false
  pub waiting : (p : ℕ) → is_waiting (s.jobs p) ≡ true

record Waits (k : Knobs) (s : Peer) (p : ℕ) (pc : JobPc) : Type 0 where
  napi : (job_step k p pc s).0.napi ≡ s.napi
  armed : (job_step k p pc s).0.timer_armed ≡ s.timer_armed
  timer : (job_step k p pc s).0.timer_active ≡ s.timer_active
  waiting : is_waiting (job_step k p pc s).1 ≡ true

-- In some state that the run leads to, the count of completions has come up to wg_trig_k.
abbrev pub HasCounted :
    {k : Knobs} {budget : ℕ} {s t : System} → AuthenticReach k budget s t → Type 0
HasCounted first = ⊥
HasCounted {k} (then_ {u = u} r st clean) = HasCounted r ⊎ (k.trig_k ≤ u.peer.rx_ready)
