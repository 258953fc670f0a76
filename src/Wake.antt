-- ===== src/Wake.antt =====
-- Who wakes the receive poll of one peer: wg_queue_enqueue_per_peer_rx and wg_rx_coalesce_timer
-- (build/wg515-trigger/queueing.h, receive.c), and the end of wg_packet_rx_poll, each cut at its
-- shared accesses.
pub mod Job
pub mod Poll
pub mod System
pub mod Inv
pub mod Safety
pub mod Stale
pub mod LostTimer
mod Tests
pub use wireguard_receive_path.Prelude.{update, update_self, update_ne}
use wireguard_receive_path.Prelude.{ℕ, Bool, true, false, List, Option}
use wireguard_receive_path.Napi.{Napi}

-- enum packet_state
pub data PacketState : Type 0 where
  uncrypted crypted dead : PacketState

abbrev pub is_uncrypted : PacketState → Bool
is_uncrypted uncrypted = true
is_uncrypted _ = false

-- The module parameters that choose how a completion wakes the poll.
pub record Knobs : Type 0 where
  pub trig_k : ℕ
  pub supp : Bool
  pub headwake : Bool
  pub steal : ℕ

-- What the threads share of one struct wg_peer. A packet is named by the number of its allocation,
-- and `address` is where its skb lies: later packets may lie where a freed one did. `linked` is the content of rx_queue behind `peeked`,
-- oldest first; `timer_active` is whether rx_coalesce_timer is pending.
pub record Peer : Type 0 where
  pub address : ℕ → ℕ
  pub napi : Napi
  pub peeked : Option ℕ
  pub linked : List ℕ
  pub state : ℕ → PacketState
  pub blocked_on : Option ℕ
  pub rx_ready : ℕ
  pub timer_armed : Bool
  pub timer_active : Bool
