-- ===== src/Timers.antt =====
-- The five timers of a peer: linux-source/drivers/net/wireguard/timers.c.
pub mod Laws
mod Tests
use wireguard_receive_path.Prelude.{
  ℕ, ◌+◌, ◌*◌, ◌/◌, Bool, true, false, ltb, ◌==◌, ◌&&◌, not, if◌then◌else◌, Option, none, some,
  List, [], ◌∷◌,
}

abbrev pub max_timer_handshakes : ℕ
max_timer_handshakes = 90 / 5

-- What the timers make other parts of the peer do.
pub data Action : Type 0 where
  purge_staged_packets clear_endpoint_src packet_send_keepalive queue_clear_peer : Action
  handshake_clear keypairs_clear set_walltime : Action
  send_initiation : (is_retry : Bool) → Action

-- The fields of struct wg_peer that timers.c uses. A timer is pending if it has a time to expire at.
-- `running` is netif_running; `actions` are the newest first.
pub record Timers : Type 0 where
  pub running : Bool
  pub is_dead : Bool
  pub retransmit_handshake : Option ℕ
  pub send_keepalive : Option ℕ
  pub new_handshake : Option ℕ
  pub zero_key_material : Option ℕ
  pub persistent_keepalive : Option ℕ
  pub handshake_attempts : ℕ
  pub need_another_keepalive : Bool
  pub sent_lastminute_handshake : Bool
  pub persistent_keepalive_interval : ℕ
  pub actions : List Action

abbrev pub is_pending : Option ℕ → Bool
is_pending none = false
is_pending (some t) = true

-- mod_peer_timer: what becomes of the timer.
abbrev pub mod_peer_timer : Timers → Option ℕ → ℕ → Option ℕ
mod_peer_timer s timer expires = if s.running && not s.is_dead then some expires else timer

abbrev pub act : Action → Timers → Timers
act a s = record s { actions = a ∷ s.actions }

-- wg_packet_send_queued_handshake_initiation, as far as the timers' fields go
unfoldable pub send_queued_initiation : (is_retry : Bool) → Timers → Timers
send_queued_initiation is_retry s =
    act (send_initiation is_retry) (if is_retry then s else record s { handshake_attempts = 0 })

-- Ticks in a second; `now` is jiffies, and `jitter` what get_random_u32_below gives.
module _ (hz : ℕ) where
  unfoldable pub expired_retransmit_handshake : ℕ → Timers → Timers
  unfolding send_queued_initiation
  expired_retransmit_handshake now s =
      if ltb max_timer_handshakes s.handshake_attempts
      then (let t = act purge_staged_packets (record s { send_keepalive = none }) in
          if is_pending s.zero_key_material then t else record t {
            zero_key_material = mod_peer_timer s s.zero_key_material (now + 180 * 3 * hz);
          })
      else send_queued_initiation true
          (act clear_endpoint_src (record s { handshake_attempts = s.handshake_attempts + 1 }))

  unfoldable pub expired_send_keepalive : ℕ → Timers → Timers
  expired_send_keepalive now s =
      let t = act packet_send_keepalive s in
      if s.need_another_keepalive
      then record t {
        need_another_keepalive = false;
        send_keepalive = mod_peer_timer s s.send_keepalive (now + 10 * hz);
      }
      else t

  unfoldable pub expired_new_handshake : Timers → Timers
  unfolding send_queued_initiation
  expired_new_handshake s = send_queued_initiation false (act clear_endpoint_src s)

  unfoldable pub expired_zero_key_material : Timers → Timers
  expired_zero_key_material s = if s.is_dead then s else act queue_clear_peer s

  unfoldable pub queued_expired_zero_key_material : Timers → Timers
  queued_expired_zero_key_material s = act keypairs_clear (act handshake_clear s)

  unfoldable pub expired_send_persistent_keepalive : Timers → Timers
  expired_send_persistent_keepalive s =
      if s.persistent_keepalive_interval == 0 then s else act packet_send_keepalive s

  unfoldable pub data_sent : (now jitter : ℕ) → Timers → Timers
  data_sent now jitter s = if is_pending s.new_handshake then s else record s {
    new_handshake = mod_peer_timer s s.new_handshake (now + (10 + 5) * hz + jitter);
  }

  unfoldable pub data_received : ℕ → Timers → Timers
  data_received now s =
      if not s.running
      then s
      else if is_pending s.send_keepalive
      then record s { need_another_keepalive = true }
      else record s { send_keepalive = mod_peer_timer s s.send_keepalive (now + 10 * hz) }

  unfoldable pub any_authenticated_packet_sent : Timers → Timers
  any_authenticated_packet_sent s = record s { send_keepalive = none }

  unfoldable pub any_authenticated_packet_received : Timers → Timers
  any_authenticated_packet_received s = record s { new_handshake = none }

  unfoldable pub handshake_initiated : (now jitter : ℕ) → Timers → Timers
  handshake_initiated now jitter s = record s {
    retransmit_handshake = mod_peer_timer s s.retransmit_handshake (now + 5 * hz + jitter);
  }

  unfoldable pub handshake_complete : Timers → Timers
  handshake_complete s = act set_walltime (record s {
    retransmit_handshake = none;
    handshake_attempts = 0;
    sent_lastminute_handshake = false;
  })

  unfoldable pub session_derived : ℕ → Timers → Timers
  session_derived now s = record s {
    zero_key_material = mod_peer_timer s s.zero_key_material (now + 180 * 3 * hz);
  }

  unfoldable pub any_authenticated_packet_traversal : ℕ → Timers → Timers
  any_authenticated_packet_traversal now s =
      if s.persistent_keepalive_interval == 0 then s else record s {
        persistent_keepalive =
            mod_peer_timer s s.persistent_keepalive (now + s.persistent_keepalive_interval * hz);
      }

  unfoldable pub stop : Timers → Timers
  stop s = record s {
    retransmit_handshake = none;
    send_keepalive = none;
    new_handshake = none;
    zero_key_material = none;
    persistent_keepalive = none;
  }
