-- ===== src/Send/Rate.antt =====
-- How often a peer sends a handshake initiation.
use wireguard_receive_path.Prelude.{
  ℕ, ◌+◌, ◌*◌, ◌^◌, ◌≤◌, ◌<◌, ◌≡◌, Bool, true, false, ◌&&◌, if◌then◌else◌, List, [], ◌∷◌, arith,
  Bool-cases, inl, inr, subst, sym,
}
use wireguard_receive_path.Cookie.{birthdate_has_expired}
use wireguard_receive_path.Send.{
  Effect, initiation_sent, response_sent, Peer, emit, rekey_timeout, send_handshake_initiation,
  handshake_send_worker, send_handshake_response,
}

-- The functions that send a handshake message.
pub data Handshake : Type 0 where
  initiate : (now later : ℕ) (created : Bool) → Handshake
  respond : (now later : ℕ) (created begun : Bool) → Handshake

unfoldable pub run_handshake : Handshake → Peer → Peer
run_handshake (initiate now later created) s = handshake_send_worker now later created s
run_handshake (respond now later created begun) s =
    send_handshake_response now later created begun s

unfoldable pub run_handshakes : List Handshake → Peer → Peer
run_handshakes [] s = s
run_handshakes (h ∷ hs) s = run_handshakes hs (run_handshake h s)

-- The times of the initiations that were sent, the last one first.
abbrev pub sent_times : List Effect → List ℕ
sent_times [] = []
sent_times (initiation_sent t ∷ es) = t ∷ sent_times es
sent_times (_ ∷ es) = sent_times es

-- Each comes at least REKEY_TIMEOUT seconds after the one before.
abbrev pub IsSpaced : List ℕ → Type 0
IsSpaced [] = Unit
IsSpaced (t ∷ []) = Unit
IsSpaced (t ∷ u ∷ ts) = (u + rekey_timeout * 1000000000 ≤ t) × IsSpaced (u ∷ ts)

-- The clock of a call and after it, from the time `clock` on, and before 2 ^ 62 ns.
abbrev pub IsTimed : (clock : ℕ) → List Handshake → Type 0
IsTimed clock [] = Unit
IsTimed clock (initiate now later created ∷ hs) =
    (clock ≤ now) × (now ≤ later) × (later < 2 ^ 62) × IsTimed later hs
IsTimed clock (respond now later created begun ∷ hs) =
    (clock ≤ now) × (now ≤ later) × (later < 2 ^ 62) × IsTimed later hs

-- The times are spaced, and last_sent_handshake is not before the last of them, nor after the clock.
abbrev IsAhead : ℕ → List ℕ → Type 0
IsAhead last [] = Unit
IsAhead last (t ∷ ts) = t ≤ last

record IsPaced (clock : ℕ) (s : Peer) : Type 0 where
  spaced : IsSpaced (sent_times s.effects)
  ahead : IsAhead s.last_sent_handshake (sent_times s.effects)
  past : s.last_sent_handshake ≤ clock

IsSpaced-next :
    (last t : ℕ) (ts : List ℕ)
    → last + rekey_timeout * 1000000000 ≤ t
    → IsAhead last ts
    → IsSpaced ts
    → IsSpaced (t ∷ ts)
IsSpaced-next last t [] le a h = tt
IsSpaced-next last t (u ∷ ts) le a h = (omega (arith, le, a), h)

IsAhead-raised : (a b : ℕ) (ts : List ℕ) → a ≤ b → IsAhead a ts → IsAhead b ts
IsAhead-raised a b [] le h = tt
IsAhead-raised a b (t ∷ ts) le h = omega (arith, le, h)

-- Before 2 ^ 62 the signed comparison is the one of the numbers.
expired-le :
    (now last : ℕ)
    → now < 2 ^ 62
    → last < 2 ^ 62
    → birthdate_has_expired now last rekey_timeout ≡ true
    → last + rekey_timeout * 1000000000 ≤ now
expired-le now last a b h = ground (arith, h)

initiation-IsPaced :
    (clock now later : ℕ) (created : Bool) (s : Peer)
    → clock ≤ now
    → now ≤ later
    → later < 2 ^ 62
    → IsPaced clock s
    → IsPaced later (send_handshake_initiation now later created s)
unfolding send_handshake_initiation
initiation-IsPaced clock now later created s le le' lt p =
    elim (Bool-cases (birthdate_has_expired now s.last_sent_handshake rekey_timeout)) [
      | inr e ↦
          simp (e) (record { spaced = p.spaced; ahead = p.ahead; past = omega (arith, p.past) })
      | inl e ↦ simp (e) (
          tried created
            (expired-le now s.last_sent_handshake (omega arith) (omega (arith, p.past)) e))
    ]
  where
    tried :
        (created : Bool)
        → s.last_sent_handshake + rekey_timeout * 1000000000 ≤ now
        → IsPaced later (
            if created
            then emit (initiation_sent later) (record s { last_sent_handshake = later })
            else record s { last_sent_handshake = now })
    tried true old = record {
      spaced =
          IsSpaced-next s.last_sent_handshake later (sent_times s.effects) (omega (arith, old))
            p.ahead p.spaced;
      ahead = omega arith;
      past = omega arith;
    }
    tried false old = record {
      spaced = p.spaced;
      ahead =
          IsAhead-raised s.last_sent_handshake now (sent_times s.effects) (omega (arith, p.past))
            p.ahead;
      past = omega arith;
    }

worker-IsPaced :
    (clock now later : ℕ) (created : Bool) (s : Peer)
    → clock ≤ now
    → now ≤ later
    → later < 2 ^ 62
    → IsPaced clock s
    → IsPaced later (handshake_send_worker now later created s)
unfolding handshake_send_worker
worker-IsPaced clock now later created s a b c p =
    let t : Peer = record s { transmit_handshake_work = false } in
    let q =
      initiation-IsPaced clock now later created t a b c
        (record { spaced = p.spaced; ahead = p.ahead; past = p.past }) in
    record { spaced = q.spaced; ahead = q.ahead; past = q.past }

respond-IsPaced :
    (clock now later : ℕ) (created begun : Bool) (s : Peer)
    → clock ≤ now
    → now ≤ later
    → IsPaced clock s
    → IsPaced later (send_handshake_response now later created begun s)
unfolding send_handshake_response
respond-IsPaced clock now later created begun s a b p = go (created && begun)
  where
    go :
        (both : Bool)
        → IsPaced later (
            if both
            then emit (response_sent later) (record s { last_sent_handshake = later })
            else record s { last_sent_handshake = now })
    go true = record {
      spaced = p.spaced;
      ahead =
          IsAhead-raised s.last_sent_handshake later (sent_times s.effects)
            (omega (arith, a, b, p.past)) p.ahead;
      past = omega arith;
    }
    go false = record {
      spaced = p.spaced;
      ahead =
          IsAhead-raised s.last_sent_handshake now (sent_times s.effects) (omega (arith, a, p.past))
            p.ahead;
      past = omega (arith, b);
    }

run_handshakes-IsPaced :
    (clock : ℕ) (hs : List Handshake) (s : Peer)
    → IsTimed clock hs
    → IsPaced clock s
    → IsSpaced (sent_times (run_handshakes hs s).effects)
unfolding run_handshakes run_handshake
run_handshakes-IsPaced clock [] s w p = p.spaced
run_handshakes-IsPaced clock (initiate now later created ∷ hs) s (a, b, c, w) p =
    run_handshakes-IsPaced later hs (handshake_send_worker now later created s) w
      (worker-IsPaced clock now later created s a b c p)
run_handshakes-IsPaced clock (respond now later created begun ∷ hs) s (a, b, c, w) p =
    run_handshakes-IsPaced later hs (send_handshake_response now later created begun s) w
      (respond-IsPaced clock now later created begun s a b p)

-- A peer that has sent no initiation, and whose last handshake message is not after `clock`, sends its
-- handshake initiations at least 5 s apart: over any sequence of runs of
-- wg_packet_handshake_send_worker and calls of wg_packet_send_handshake_response, by a clock that does
-- not go back and stays below 2 ^ 62 ns, each initiation that is sent comes at least 5 s after the one
-- before.
pub run_handshakes-IsSpaced :
    (clock : ℕ) (hs : List Handshake) (s : Peer)
    → s.effects ≡ []
    → s.last_sent_handshake ≤ clock
    → IsTimed clock hs
    → IsSpaced (sent_times (run_handshakes hs s).effects)
run_handshakes-IsSpaced clock hs s none_yet past w = run_handshakes-IsPaced clock hs s w (record {
  spaced = subst (λ es. IsSpaced (sent_times es)) (sym none_yet) tt;
  ahead = subst (λ es. IsAhead s.last_sent_handshake (sent_times es)) (sym none_yet) tt;
  past = past;
})
