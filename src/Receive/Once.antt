-- ===== src/Receive/Once.antt =====
-- No packet is handed to the network stack twice.
use wireguard_receive_path.Prelude.{
  ℕ, ◌+◌, ◌≡◌, Bool, true, false, ltb, ◌==◌, ◌&&◌, ◌||◌, not, if◌then◌else◌, List, [], ◌∷◌, update,
  arith, Bool-cases, ◌⊎◌, inl, inr, refl, ap, sym, ◌∙◌, ==_iff, update_self, update_ne,
}
use wireguard_receive_path.Replay.{counter_validate}
use wireguard_receive_path.Replay.Spec.{elem, is_fresh}
use wireguard_receive_path.Replay.Refine.{Tracks, Answered, counter_validate-Answered}
use wireguard_receive_path.Receive.{
  Protocol, eth_p_ip, eth_p_ipv6, neither, Packet, Effect, gro_receive, data_received, Rx, emit,
  route, by_protocol, greet, examine, consume_data_done,
}

-- The packets that the stack was given, the newest first.
abbrev pub delivered : List Effect → List Packet
delivered [] = []
delivered (gro_receive p ∷ l) = p ∷ delivered l
delivered (_ ∷ l) = delivered l

-- A packet of this keypair and nonce is in the list.
abbrev pub seen : ℕ → ℕ → List Packet → Bool
seen k n [] = false
seen k n (p ∷ l) = ((p.keypair == k) && (p.nonce == n)) || seen k n l

-- No two packets of the list have one keypair and one nonce.
abbrev pub IsOnce : List Packet → Type 0
IsOnce [] = Unit
IsOnce (p ∷ l) = (seen p.keypair p.nonce l ≡ false) × IsOnce l

-- What the handling of a packet may add.
pub record IsPassed (p : Packet) (s s' : Rx) : Type 0 where
  pub counters : s'.counters ≡ s.counters
  pub passed :
      (delivered s'.effects ≡ delivered s.effects)
      ⊎ (delivered s'.effects ≡ p ∷ delivered s.effects)

greet-kept :
    (now : ℕ) (p : Packet) (s : Rx)
    → ((greet now p s).counters ≡ s.counters)
      × (delivered (greet now p s).effects ≡ delivered s.effects)
greet-kept now p s = (ground arith, ground arith)

route-IsPassed : (p : Packet) (len : ℕ) (s : Rx) → IsPassed p s (route p len s)
route-IsPassed p len s = record { counters = ground arith; passed = ground arith }

by_protocol-IsPassed : (o : Protocol) (p : Packet) (s : Rx) → IsPassed p s (by_protocol o p s)
by_protocol-IsPassed eth_p_ip p s = elim (Bool-cases (ltb p.tot_len 20)) [
  | inl e ↦ simp e (record { counters = refl; passed = inl refl })
  | inr e ↦ simp e (route-IsPassed p p.tot_len s)
]
by_protocol-IsPassed eth_p_ipv6 p s = route-IsPassed p (p.payload_len + 40) s
by_protocol-IsPassed neither p s = record { counters = refl; passed = inl refl }

examine-IsPassed : (p : Packet) (s : Rx) → IsPassed p s (examine p s)
examine-IsPassed p s = elim (Bool-cases (not p.has_network)) [
  | inl e ↦ simp e (record { counters = refl; passed = inl refl })
  | inr e ↦
      elim (Bool-cases (p.pulls_v4 && ((p.version == 4) || ((p.version == 6) && p.pulls_v6)))) [
        | inl e' ↦ simp (e, e') (by_protocol-IsPassed p.protocol p s)
        | inr e' ↦ simp (e, e') (record { counters = refl; passed = inl refl })
      ]
]

pub consume_data_done-IsPassed :
    (now : ℕ) (p : Packet) (s : Rx) → IsPassed p s (consume_data_done now p s)
unfolding consume_data_done
consume_data_done-IsPassed now p s =
    let (c, d) = greet-kept now p s in
    elim (Bool-cases (p.len == 0)) [
      | inl e ↦ simp e (record { counters = c; passed = inl d })
      | inr e ↦
          let x = examine-IsPassed p (emit data_received (greet now p s)) in
          simp e (record {
            counters = x.counters ∙ c;
            passed = elim x.passed [ inl a ↦ inl (a ∙ d) | inr a ↦ inr (a ∙ ap (λ l. p ∷ l) d) ];
          })
    ]

-- Every replay counter tracks a log that holds the nonces of the packets delivered so far.
pub record IsUnrepeated (s : Rx) : Type 0 where
  pub logs : ℕ → List ℕ
  pub tracks : (k : ℕ) → Tracks (s.counters k) (logs k)
  pub logged : (k n : ℕ) → seen k n (delivered s.effects) ≡ true → elem n (logs k) ≡ true
  pub once : IsOnce (delivered s.effects)

module _ (p : Packet) (s : Rx) (u : IsUnrepeated s) where
  abbrev pub checked : Rx
  checked = record s {
    counters = update s.counters p.keypair (counter_validate (s.counters p.keypair) p.nonce).1;
  }

  abbrev log_after : ℕ → List ℕ
  log_after =
      update u.logs p.keypair (
        if is_fresh (u.logs p.keypair) p.nonce
        then p.nonce ∷ u.logs p.keypair
        else u.logs p.keypair)

  answered : Answered (u.logs p.keypair) p.nonce (counter_validate (s.counters p.keypair) p.nonce)
  answered = counter_validate-Answered p.nonce (u.tracks p.keypair)

  checked-Tracks : (k : ℕ) → Tracks (checked.counters k) (log_after k)
  checked-Tracks k = elim (Bool-cases (p.keypair == k)) [
    | inl e ↦
        rw
          (
            ← (==_iff p.keypair k).0 e,
            update_self s.counters p.keypair _,
            update_self u.logs p.keypair _,
          )
          answered.state
    | inr e ↦
        rw (update_ne s.counters p.keypair _ k e, update_ne u.logs p.keypair _ k e) (u.tracks k)
  ]

  -- A log only grows.
  log_after-elem : (k n : ℕ) → elem n (u.logs k) ≡ true → elem n (log_after k) ≡ true
  log_after-elem k n h = elim (Bool-cases (p.keypair == k)) [
    | inl e ↦
        rw (← (==_iff p.keypair k).0 e, update_self u.logs p.keypair _)
          (ground (arith, rw (← (==_iff p.keypair k).0 e) at h))
    | inr e ↦ rw (update_ne u.logs p.keypair _ k e) h
  ]

  pub refused-IsUnrepeated :
      (s' : Rx)
      → s'.counters ≡ checked.counters
      → delivered s'.effects ≡ delivered s.effects
      → IsUnrepeated s'
  refused-IsUnrepeated s' c d = record {
    logs = log_after;
    tracks = λ k. rw c (checked-Tracks k);
    logged = λ k n h. log_after-elem k n (u.logged k n (rw d at h));
    once = rw d u.once;
  }

  -- The packet was let through, so no log held its nonce.
  module _ (ok : (counter_validate (s.counters p.keypair) p.nonce).0 ≡ true) where
    fresh : is_fresh (u.logs p.keypair) p.nonce ≡ true
    fresh = sym answered.answer ∙ ok

    not_logged : elem p.nonce (u.logs p.keypair) ≡ false
    not_logged = unfold is_fresh in ground (arith, fresh)

    now_logged : elem p.nonce (log_after p.keypair) ≡ true
    now_logged = rw (update_self u.logs p.keypair _) (simp fresh (ground arith))

    not_seen : seen p.keypair p.nonce (delivered s.effects) ≡ false
    not_seen = elim (Bool-cases (seen p.keypair p.nonce (delivered s.effects))) [
      | inr e ↦ e
      | inl e ↦ absurd (cc (u.logged p.keypair p.nonce e, not_logged))
    ]

    pub passed-IsUnrepeated :
        (s' : Rx)
        → s'.counters ≡ checked.counters
        → delivered s'.effects ≡ p ∷ delivered s.effects
        → IsUnrepeated s'
    passed-IsUnrepeated s' c d = record {
      logs = log_after;
      tracks = λ k. rw c (checked-Tracks k);
      logged = λ k n h. elim (Bool-cases ((p.keypair == k) && (p.nonce == n))) [
        | inl e ↦
            rw (← (==_iff p.keypair k).0 (ground arith), ← (==_iff p.nonce n).0 (ground arith))
              now_logged
        | inr e ↦ log_after-elem k n (u.logged k n (ground (arith, rw d at h)))
      ];
      once = rw d (not_seen, u.once);
    }
