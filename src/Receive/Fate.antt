-- ===== src/Receive/Fate.antt =====
-- Who owns a packet and its references after the delivery loop.
use wireguard_receive_path.Prelude.{
  ℕ, ◌+◌, ◌≤◌, ◌<◌, ◌≡◌, Bool, true, false, ltb, leb, ◌==◌, not, List, [], ◌∷◌, ◌++◌, map, length,
  arith, Bool-cases, inl, inr, refl, ap, ◌∙◌, ◌&&◌, ◌||◌, update, ◌⊎◌, if◌then◌else◌,
}
use wireguard_receive_path.Replay.{counter_validate}
use wireguard_receive_path.Wake.{is_uncrypted}
use wireguard_receive_path.Wake.Job.{is_crypted}
use wireguard_receive_path.Receive.{
  Protocol, eth_p_ip, eth_p_ipv6, neither, Packet, Effect, kfree_skb, gro_receive, keypair_put,
  peer_get, peer_put, length_error, frame_error, dishonest, Rx, emit, keep_key_fresh, confirm,
  route, by_protocol, consume_data_done, release, has, greet, examine, data_received, deliver_one,
  deliver,
}

-- The packets that were freed or handed to the stack, the newest first.
abbrev pub fates : List Effect → List Packet
fates [] = []
fates (kfree_skb p ∷ l) = p ∷ fates l
fates (gro_receive p ∷ l) = p ∷ fates l
fates (_ ∷ l) = fates l

abbrev pub keypair_puts : List Effect → List ℕ
keypair_puts [] = []
keypair_puts (keypair_put k ∷ l) = k ∷ keypair_puts l
keypair_puts (_ ∷ l) = keypair_puts l

-- The references of a peer that were taken and put
abbrev pub peer_gets : ℕ → List Effect → ℕ
peer_gets x [] = 0
peer_gets x (peer_get i ∷ l) = let rest = peer_gets x l in if x == i then 1 + rest else rest
peer_gets x (_ ∷ l) = peer_gets x l

abbrev pub peer_puts : ℕ → List Effect → ℕ
peer_puts x [] = 0
peer_puts x (peer_put i ∷ l) = let rest = peer_puts x l in if x == i then 1 + rest else rest
peer_puts x (_ ∷ l) = peer_puts x l

-- What was taken from `s` to `s'` was put, and `n` more references to the peer itself.
abbrev pub IsPut : ℕ → Rx → Rx → Type 0
IsPut n s s' =
    (x : ℕ)
    → peer_puts x s'.effects + peer_gets x s.effects
      ≡ (if x == s.internal_id then n else 0) + (peer_puts x s.effects + peer_gets x s'.effects)

-- The packets `gone` met their fates, oldest first, and `keys` and `peers` references went.
record IsOwned (gone : List Packet) (keys : List ℕ) (peers : ℕ) (s s' : Rx) : Type 0 where
  same : s'.internal_id ≡ s.internal_id
  fate : fates s'.effects ≡ gone ++ fates s.effects
  key : keypair_puts s'.effects ≡ keys ++ keypair_puts s.effects
  peer : IsPut peers s s'

abbrev Frees : Packet → Rx → Rx → Type 0
Frees p s s' = IsOwned (p ∷ []) [] 0 s s'

-- One thing after another
IsPut-trans :
    (a b : ℕ) (s t u : Rx)
    → t.internal_id ≡ s.internal_id
    → IsPut a s t
    → IsPut b t u
    → IsPut (b + a) s u
IsPut-trans a b s t u same h h' x = elim (Bool-cases (x == s.internal_id)) [
  | inl e ↦ ground (arith, h x, h' x)
  | inr e ↦ ground (arith, h x, h' x)
]

keep_key_fresh-fates : (now : ℕ) (s : Rx) → IsOwned [] [] 0 s (keep_key_fresh now s)
keep_key_fresh-fates now s = record {
  same = ground arith;
  fate = ground arith;
  key = ground arith;
  peer = λ x. ground arith;
}

confirm-fates : (p : Packet) (s : Rx) → IsOwned [] [] 0 s (confirm p s)
confirm-fates p s = record {
  same = ground arith;
  fate = ground arith;
  key = ground arith;
  peer = λ x. ground arith;
}

route-Frees : (p : Packet) (len : ℕ) (s : Rx) → Frees p s (route p len s)
route-Frees p len s = record {
  same = ground arith;
  fate = ground arith;
  key = ground arith;
  peer = λ x. ground arith;
}

-- An effect that frees a packet after one that counts an error
dishonest-Frees :
    (p : Packet) (s : Rx) (e : Effect)
    → e ≡ length_error ⊎ e ≡ frame_error
    → Frees p s (dishonest e p s)
dishonest-Frees p s e (inl h) =
    rw h (record { same = refl; fate = refl; key = refl; peer = λ x. ground arith })
dishonest-Frees p s e (inr h) =
    rw h (record { same = refl; fate = refl; key = refl; peer = λ x. ground arith })

by_protocol-Frees : (o : Protocol) (p : Packet) (s : Rx) → Frees p s (by_protocol o p s)
by_protocol-Frees eth_p_ip p s = elim (Bool-cases (ltb p.tot_len 20)) [
  | inl e ↦ simp e (dishonest-Frees p s length_error (inl refl))
  | inr e ↦ simp e (route-Frees p p.tot_len s)
]
by_protocol-Frees eth_p_ipv6 p s = route-Frees p (p.payload_len + 40) s
by_protocol-Frees neither p s = dishonest-Frees p s frame_error (inr refl)

greet-fates : (now : ℕ) (p : Packet) (s : Rx) → IsOwned [] [] 0 s (greet now p s)
greet-fates now p s =
    let c = confirm-fates p s in
    let k = keep_key_fresh-fates now (confirm p s) in
    record {
      same = k.same ∙ c.same;
      fate = k.fate ∙ c.fate;
      key = k.key ∙ c.key;
      peer = IsPut-trans 0 0 s (confirm p s) (greet now p s) c.same c.peer k.peer;
    }

examine-Frees : (p : Packet) (s : Rx) → Frees p s (examine p s)
examine-Frees p s = elim (Bool-cases (not p.has_network)) [
  | inl e ↦ simp e (dishonest-Frees p s length_error (inl refl))
  | inr e ↦
      elim (Bool-cases (p.pulls_v4 && ((p.version == 4) || ((p.version == 6) && p.pulls_v6)))) [
        | inl e' ↦ simp (e, e') (by_protocol-Frees p.protocol p s)
        | inr e' ↦ simp (e, e') (dishonest-Frees p s frame_error (inr refl))
      ]
]

consume_data_done-Frees : (now : ℕ) (p : Packet) (s : Rx) → Frees p s (consume_data_done now p s)
unfolding consume_data_done
consume_data_done-Frees now p s =
    let g = greet-fates now p s in
    elim (Bool-cases (p.len == 0)) [
      | inl e ↦
          simp e
            (record { same = g.same; fate = ap (λ l. p ∷ l) g.fate; key = g.key; peer = g.peer })
      | inr e ↦
          let x = examine-Frees p (emit data_received (greet now p s)) in
          simp e (record {
            same = x.same ∙ g.same;
            fate = x.fate ∙ ap (λ l. p ∷ l) g.fate;
            key = x.key ∙ g.key;
            peer =
                IsPut-trans 0 0 s (emit data_received (greet now p s))
                  (examine p (emit data_received (greet now p s))) g.same g.peer x.peer;
          })
    ]

-- One round: the packet meets its fate, and gives back its keypair and its peer.
abbrev Gives : Packet → Rx → Rx → Type 0
Gives p s s' = IsOwned (p ∷ []) (p.keypair ∷ []) 1 s s'

drop-Gives : (p : Packet) (s : Rx) → Gives p s (release p true s)
drop-Gives p s = record { same = refl; fate = refl; key = refl; peer = λ x. ground arith }

keep-IsPut : (p : Packet) (s : Rx) → IsPut 1 s (release p false s)
keep-IsPut p s x = ground arith

deliver_one-Gives : (now : ℕ) (p : Packet) (s : Rx) → Gives p s (deliver_one now p s)
unfolding deliver_one
deliver_one-Gives now p s = elim (Bool-cases (not (is_crypted p.state))) [
  | inl e ↦ simp e (drop-Gives p s)
  | inr e ↦ elim (Bool-cases (not (counter_validate (s.counters p.keypair) p.nonce).0)) [
    | inl e' ↦ simp (e, e') (from_t (release p true t) (drop-Gives p t))
    | inr e' ↦ elim (Bool-cases (not (has p.endpoint))) [
      | inl e'' ↦ simp (e, e', e'') (from_t (release p true t) (drop-Gives p t))
      | inr e'' ↦
          let c = consume_data_done-Frees now p t in
          let u = consume_data_done now p t in
          simp (e, e', e'')
            (from_t (release p false u) (record {
              same = c.same;
              fate = c.fate;
              key = ap (λ l. p.keypair ∷ l) c.key;
              peer = IsPut-trans 0 1 t u (release p false u) c.same c.peer (keep-IsPut p u);
            }))
    ]
  ]
]
  where
    t : Rx
    t = record s {
      counters = update s.counters p.keypair (counter_validate (s.counters p.keypair) p.nonce).1;
    }

    -- the counters are no part of it
    from_t : (r : Rx) → Gives p t r → Gives p s r
    from_t r g = record { same = g.same; fate = g.fate; key = g.key; peer = g.peer }

abbrev pub rev_onto {ℓ} : {A : Type ℓ} → List A → List A → List A
rev_onto [] l = l
rev_onto (x ∷ xs) l = rev_onto xs (x ∷ l)

-- The loop stopped at the end of the queue or at a packet that is not decrypted.
abbrev pub is_drained : List Packet → Bool
is_drained [] = true
is_drained (p ∷ l) = is_uncrypted p.state

-- What a run of the delivery loop, from `work` packets done, comes to.
pub record IsDelivered (budget work : ℕ) (q : List Packet) (s : Rx) (r : ℕ × List Packet × Rx)
    : Type 0 where
  pub taken : List Packet
  pub in_order : q ≡ taken ++ r.1
  pub counted : r.0 ≡ work + length taken
  pub bounded : r.0 ≤ budget
  pub drained : r.0 < budget → is_drained r.1 ≡ true
  pub owned : fates r.2.effects ≡ rev_onto taken (fates s.effects)
  pub keypairs_put :
      keypair_puts r.2.effects ≡ rev_onto (map Packet.keypair taken) (keypair_puts s.effects)
  pub peers_put : IsPut (length taken) s r.2

-- With less work done than the budget, the loop takes packets off the queue's head in their order,
-- counts each, never more than the budget, and stops short of it only where the queue is empty or its
-- head is not decrypted. Each packet it takes is, in that order, either freed or handed to the stack,
-- exactly once, and for each exactly one reference to its keypair is put. Of every peer, the
-- references that lookups of the inner source address take are put, and beside them, of the peer
-- itself, exactly one for each packet that was taken.
pub deliver-IsDelivered :
    (now budget work : ℕ) (q : List Packet) (s : Rx)
    → work < budget
    → IsDelivered budget work q s (deliver now budget work q s)
unfolding deliver
deliver-IsDelivered now budget work [] s lt = record {
  taken = [];
  in_order = refl;
  counted = omega arith;
  bounded = omega arith;
  drained = λ h. refl;
  owned = refl;
  keypairs_put = refl;
  peers_put = λ x. ground arith;
}
deliver-IsDelivered now budget work (p ∷ q) s lt = elim (Bool-cases (is_uncrypted p.state)) [
  | inl e ↦ simp e (record {
    taken = [];
    in_order = refl;
    counted = omega arith;
    bounded = omega arith;
    drained = λ h. e;
    owned = refl;
    keypairs_put = refl;
    peers_put = λ x. ground arith;
  })
  | inr e ↦ elim (Bool-cases (leb budget (work + 1))) [
    | inl e' ↦
        simp (e, e')
          (record {
            taken = p ∷ [];
            in_order = refl;
            counted = omega arith;
            bounded = ground arith;
            drained = λ h. absurd (ground arith);
            owned = one.fate;
            keypairs_put = one.key;
            peers_put = one.peer;
          })
    | inr e' ↦
        let end = (deliver now budget (work + 1) q (deliver_one now p s)).2 in
        let r = deliver-IsDelivered now budget (work + 1) q (deliver_one now p s) (ground arith) in
        simp (e, e')
          (record {
            taken = p ∷ r.taken;
            in_order = ap (λ l. p ∷ l) r.in_order;
            counted = omega (arith, r.counted);
            bounded = r.bounded;
            drained = r.drained;
            owned = r.owned ∙ ap (rev_onto r.taken) one.fate;
            keypairs_put = r.keypairs_put ∙ ap (rev_onto (map Packet.keypair r.taken)) one.key;
            peers_put = counted_in end r.taken (
                IsPut-trans 1 (length r.taken) s (deliver_one now p s) end one.same one.peer
                  r.peers_put);
          })
  ]
]
  where
    one : Gives p s (deliver_one now p s)
    one = deliver_one-Gives now p s

    counted_in :
        (r : Rx) (taken : List Packet)
        → IsPut (length taken + 1) s r
        → IsPut (length (p ∷ taken)) s r
    counted_in r taken h x = ground (arith, h x)
