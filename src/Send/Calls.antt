-- ===== src/Send/Calls.antt =====
-- A peer that sends, over any sequence of calls: no nonce is used twice with one key.
use wireguard_receive_path.Prelude.{
  ℕ, ◌+◌, ◌<◌, ◌≡◌, Bool, true, false, not, ltb, ◌==◌, ◌&&◌, ◌||◌, if◌then◌else◌, Option, none,
  some, List, [], ◌∷◌, ◌++◌, length, subst, update, refl, sym, ap, ◌∙◌, arith, Bool-cases, inl, inr,
}
use wireguard_receive_path.Cookie.{birthdate_has_expired}
use wireguard_receive_path.Send.{
  Skb, Peer, emit, initiation_sent, response_sent, packets_dropped, peer_put, rekey_timeout,
  rekey_after_messages, rekey_after_time, send_handshake_initiation, handshake_send_worker,
  send_queued_handshake_initiation, send_handshake_response, keep_key_fresh, send_staged_packets,
  send_packets, send_keepalive, purge_staged_packets,
}
use wireguard_receive_path.Send.Nonces.{used, is_used, IsUnique, IsCounted}
use wireguard_receive_path.Send.Apart.{IsApart, quiet-IsApart, asked-IsQuiet, send_packets-IsApart}

-- What can happen to a peer. `derive` is wg_noise_handshake_begin_session, which makes a keypair that
-- was not there before; `use_keypair` the change of current_keypair to any that was made, or to none.
pub data Call : Type 0 where
  stage : Skb → Call
  send : (now : ℕ) → Call
  keepalive : (now mtu : ℕ) (allocated : Bool) → Call
  freshen : (now : ℕ) → Call
  purge : Call
  initiate : (now later : ℕ) (created : Bool) → Call
  ask : (now : ℕ) → Call
  respond : (now later : ℕ) (created begun : Bool) → Call
  derive : (now : ℕ) (initiator : Bool) → Call
  use_keypair : Option ℕ → Call

abbrev use_made : Option ℕ → Peer → Peer
use_made none s = record s { current = none }
use_made (some k) s = if ltb k s.next_id then record s { current = some k } else s

abbrev derived : (now : ℕ) (initiator : Bool) → Peer → Peer
derived now initiator s = record s {
  next_id = s.next_id + 1;
  sending_is_valid = update s.sending_is_valid s.next_id true;
  sending_birthdate = update s.sending_birthdate s.next_id now;
  sending_counter = update s.sending_counter s.next_id 0;
  i_am_the_initiator = update s.i_am_the_initiator s.next_id initiator;
}

unfoldable pub run_call : Call → Peer → Peer
run_call (stage p) s = record s { staged = s.staged ++ p ∷ [] }
run_call (send now) s = send_staged_packets now s
run_call (keepalive now mtu allocated) s = send_keepalive now mtu allocated s
run_call (freshen now) s = keep_key_fresh now s
run_call purge s = purge_staged_packets s
run_call (initiate now later created) s = handshake_send_worker now later created s
run_call (ask now) s = send_queued_handshake_initiation now false s
run_call (respond now later created begun) s = send_handshake_response now later created begun s
run_call (derive now initiator) s = derived now initiator s
run_call (use_keypair k) s = use_made k s

unfoldable pub run_calls : List Call → Peer → Peer
run_calls [] s = s
run_calls (c ∷ cs) s = run_calls cs (run_call c s)

-- A change of other fields than those of the keypairs
quietly :
    (s s' : Peer)
    → s'.sending_counter ≡ s.sending_counter
    → used s'.effects ≡ used s.effects
    → s'.sending_is_valid ≡ s.sending_is_valid
    → s'.next_id ≡ s.next_id
    → s'.current ≡ s.current
    → IsApart s
    → IsApart s'
quietly s s' a b c d e = quiet-IsApart s s' (record {
  same_counter = a;
  same_used = b;
  not_revived = λ k v. ap (λ f. f k) (sym c) ∙ v;
  same_next = d;
  same_current = e;
})

restaged : (s : Peer) (ps : List Skb) → IsApart s → IsApart (record s { staged = ps })
restaged s ps a = quietly s (record s { staged = ps }) refl refl refl refl refl a

staged-IsApart : (now : ℕ) (s : Peer) → IsApart s → IsApart (send_staged_packets now s)
unfolding send_staged_packets
staged-IsApart now s a = go s.staged
  where
    go :
        (ps : List Skb)
        → IsApart
            (elim ps [ [] ↦ s | p ∷ ps ↦ send_packets now (p ∷ ps) (record s { staged = [] }) ])
    go [] = a
    go (p ∷ ps) = send_packets-IsApart now (p ∷ ps) (record s { staged = [] }) (restaged s [] a)

keepalive-IsApart :
    (now mtu : ℕ) (allocated : Bool) (s : Peer)
    → IsApart s
    → IsApart (send_keepalive now mtu allocated s)
unfolding send_keepalive
keepalive-IsApart now mtu allocated s a = go s.staged allocated
  where
    go :
        (ps : List Skb) (allocated : Bool)
        → IsApart (elim ps [
          | [] ↦
              if allocated
              then send_staged_packets now
                  (record s { staged = record { len = 0; mtu = mtu } ∷ [] })
              else s
          | p ∷ ps ↦ send_staged_packets now s
        ])
    go [] true =
        staged-IsApart now (record s { staged = record { len = 0; mtu = mtu } ∷ [] })
          (restaged s (record { len = 0; mtu = mtu } ∷ []) a)
    go [] false = a
    go (p ∷ ps) allocated = staged-IsApart now s a

ask-IsApart :
    (now : ℕ) (s : Peer) → IsApart s → IsApart (send_queued_handshake_initiation now false s)
ask-IsApart now s a =
    quiet-IsApart s (send_queued_handshake_initiation now false s) (asked-IsQuiet now s) a

either-IsApart : (b : Bool) (s t : Peer) → IsApart s → IsApart t → IsApart (if b then s else t)
either-IsApart true s t h h' = h
either-IsApart false s t h h' = h'

fresh-IsApart : (now : ℕ) (s : Peer) → IsApart s → IsApart (keep_key_fresh now s)
unfolding keep_key_fresh
fresh-IsApart now s a = go s.current
  where
    go :
        (o : Option ℕ)
        → IsApart (elim o [
          | none ↦ s
          | some k ↦
              if s.sending_is_valid k
                && (ltb rekey_after_messages (s.sending_counter k)
                    || (s.i_am_the_initiator k
                        && birthdate_has_expired now (s.sending_birthdate k) rekey_after_time))
              then send_queued_handshake_initiation now false s
              else s
        ])
    go none = a
    go (some k) =
        either-IsApart _ (send_queued_handshake_initiation now false s) s (ask-IsApart now s a) a

initiation-IsApart :
    (now later : ℕ) (created : Bool) (s : Peer)
    → IsApart s
    → IsApart (send_handshake_initiation now later created s)
unfolding send_handshake_initiation
initiation-IsApart now later created s a =
    let sent : Peer = emit (initiation_sent later) (record s { last_sent_handshake = later }) in
    let tried : Peer = record s { last_sent_handshake = now } in
    either-IsApart (not (birthdate_has_expired now s.last_sent_handshake rekey_timeout)) s
      (if created then sent else tried) a
      (either-IsApart created sent tried (quietly s sent refl refl refl refl refl a)
        (quietly s tried refl refl refl refl refl a))

worker-IsApart :
    (now later : ℕ) (created : Bool) (s : Peer)
    → IsApart s
    → IsApart (handshake_send_worker now later created s)
unfolding handshake_send_worker
worker-IsApart now later created s a =
    let t : Peer = record s { transmit_handshake_work = false } in
    let u = send_handshake_initiation now later created t in
    quietly u (emit peer_put u) refl refl refl refl refl
      (initiation-IsApart now later created t (quietly s t refl refl refl refl refl a))

respond-IsApart :
    (now later : ℕ) (created begun : Bool) (s : Peer)
    → IsApart s
    → IsApart (send_handshake_response now later created begun s)
unfolding send_handshake_response
respond-IsApart now later created begun s a =
    let sent : Peer = emit (response_sent later) (record s { last_sent_handshake = later }) in
    let tried : Peer = record s { last_sent_handshake = now } in
    either-IsApart (created && begun) sent tried (quietly s sent refl refl refl refl refl a)
      (quietly s tried refl refl refl refl refl a)

-- A new keypair starts with no nonce used.
derived-IsApart :
    (now : ℕ) (initiator : Bool) (s : Peer) → IsApart s → IsApart (derived now initiator s)
derived-IsApart now initiator s a = record {
  counted = (a.counted.0, (λ k n h. ground (arith, a.made k n h, a.counted.1 k n h)));
  not_over = λ k v. elim (Bool-cases (s.next_id == k)) [
    | inl e ↦ ground (arith, e)
    | inr e ↦ ground (arith, e, a.not_over k (ground (arith, e, v)))
  ];
  made = λ k n h. omega (arith, a.made k n h);
  known = λ k h. omega (arith, a.known k h);
}

made-IsApart : (k : Option ℕ) (s : Peer) → IsApart s → IsApart (use_made k s)
made-IsApart none s a = record {
  counted = a.counted;
  not_over = a.not_over;
  made = a.made;
  known = λ k h. absurd (cc);
}
made-IsApart (some k) s a = elim (Bool-cases (ltb k s.next_id)) [
  | inl e ↦ simp (e) (record {
    counted = a.counted;
    not_over = a.not_over;
    made = a.made;
    known = λ j h. let same : k ≡ j = cc in subst (λ x. x < s.next_id) same (ground (arith, e));
  })
  | inr e ↦ simp (e) a
]

run_call-IsApart : (c : Call) (s : Peer) → IsApart s → IsApart (run_call c s)
unfolding run_call purge_staged_packets
run_call-IsApart (stage p) s a = restaged s (s.staged ++ p ∷ []) a
run_call-IsApart (send now) s a = staged-IsApart now s a
run_call-IsApart (keepalive now mtu allocated) s a = keepalive-IsApart now mtu allocated s a
run_call-IsApart (freshen now) s a = fresh-IsApart now s a
run_call-IsApart purge s a =
    quietly s (emit (packets_dropped (length s.staged)) (record s { staged = [] })) refl refl refl
      refl refl a
run_call-IsApart (initiate now later created) s a = worker-IsApart now later created s a
run_call-IsApart (ask now) s a = ask-IsApart now s a
run_call-IsApart (respond now later created begun) s a = respond-IsApart now later created begun s a
run_call-IsApart (derive now initiator) s a = derived-IsApart now initiator s a
run_call-IsApart (use_keypair k) s a = made-IsApart k s a

run_calls-IsApart : (cs : List Call) (s : Peer) → IsApart s → IsApart (run_calls cs s)
unfolding run_calls
run_calls-IsApart [] s a = a
run_calls-IsApart (c ∷ cs) s a = run_calls-IsApart cs (run_call c s) (run_call-IsApart c s a)

-- A peer without a keypair, that has sent nothing
pub record IsNew (s : Peer) : Type 0 where
  pub no_effects : s.effects ≡ []
  pub no_keypair : s.current ≡ none
  pub none_valid : (k : ℕ) → s.sending_is_valid k ≡ false

-- From a new peer, over any sequence of calls that stage and send packets, send keepalives and
-- handshake messages, purge the queue, derive keypairs and choose the current one: no two packets are
-- handed on to be encrypted with one keypair and one nonce.
pub run_calls-IsUnique :
    (cs : List Call) (s : Peer) → IsNew s → IsUnique (used (run_calls cs s).effects)
run_calls-IsUnique cs s new = (run_calls-IsApart cs s start).counted.0
  where
    start : IsApart s
    start = record {
      counted =
          subst (λ es. IsCounted s.sending_counter (used es)) (sym new.no_effects)
            (tt, (λ k n h. absurd (cc)));
      not_over = λ k v. absurd (ground (arith, v, new.none_valid k));
      made =
          subst (λ es. (k n : ℕ) → is_used k n (used es) ≡ true → k < s.next_id)
            (sym new.no_effects) (λ k n h. absurd (cc));
      known = λ k h. let e = sym new.no_keypair ∙ h in absurd (cc);
    }
