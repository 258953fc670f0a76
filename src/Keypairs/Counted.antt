-- ===== src/Keypairs/Counted.antt =====
-- The references to a keypair are the slots it stands in and those that threads hold.
use wireguard_receive_path.Prelude.{
  ℕ, ◌+◌, ◌≤◌, ◌≡◌, Bool, true, false, ◌==◌, update, ltb, Option, none, some, if◌then◌else◌, arith,
  inl, inr, Bool-cases, refl,
}
use wireguard_receive_path.Keypairs.{
  Keypair, Keypairs, keypair_put, keypairs_clear, expire_current_peer_keypairs,
  received_with_keypair, stop_sending, add_as_initiator, keypair_hash, add_new_keypair, is_slot,
}

abbrev pub in_slot : Option ℕ → ℕ → ℕ
in_slot o k = if is_slot o k then 1 else 0

abbrev pub slots : Keypairs → ℕ → ℕ
slots s k = in_slot s.current_keypair k + in_slot s.previous_keypair k + in_slot s.next_keypair k

pub record IsCounted (kp : Keypair) (slotted held : ℕ) (late : Bool) : Type 0 where
  pub counted : kp.refs ≡ slotted + held
  pub single : slotted ≤ 1
  pub findable : kp.hashed ≡ true → late ≡ false → slotted ≡ 1
  pub allocated : kp.live ≡ ltb 0 kp.refs

abbrev pub AllCounted : Keypairs → (ℕ → ℕ) → (ℕ → Bool) → Type 0
AllCounted s held late = (k : ℕ) → IsCounted (s.pairs k) (slots s k) (held k) (late k)

-- A slot that is emptied gives its reference back.
keypair_put-IsCounted :
    (o : Option ℕ) (m : ℕ → Keypair) (k rest held : ℕ) (late : Bool)
    → IsCounted (m k) (in_slot o k + rest) held late
    → IsCounted (keypair_put o true m k) rest held late
keypair_put-IsCounted none m k rest held late h = record {
  counted = omega (arith, h.counted);
  single = omega (arith, h.single);
  findable = λ e l. omega (arith, h.findable e l);
  allocated = h.allocated;
}
keypair_put-IsCounted (some j) m k rest held late h = record {
  counted = ground (arith, h.counted);
  single = ground (arith, h.single);
  findable = ground (arith, h.findable, h.single);
  allocated = ground (arith, h.counted, h.allocated);
}

in_slot_eq : (o : Option ℕ) (j k : ℕ) → is_slot o j ≡ true → in_slot o k ≡ in_slot (some j) k
in_slot_eq none j k e = absurd (cc)
in_slot_eq (some i) j k e = ground (arith)

at_slots :
    {kp : Keypair} {a b held : ℕ} {late : Bool}
    → IsCounted kp a held late
    → a ≡ b
    → IsCounted kp b held late
at_slots h e = rw (← e) h

module _ (s : Keypairs) (held : ℕ → ℕ) (late : ℕ → Bool) (h : AllCounted s held late) where
  pub keypairs_clear-IsCounted : AllCounted (keypairs_clear s) held late
  unfolding keypairs_clear
  keypairs_clear-IsCounted k = keypair_put-IsCounted s.current_keypair _ k 0 (held k) (late k) (
      keypair_put-IsCounted s.previous_keypair _ k (in_slot s.current_keypair k + 0) (held k)
        (late k)
        (keypair_put-IsCounted s.next_keypair _ k
          (in_slot s.previous_keypair k + (in_slot s.current_keypair k + 0)) (held k) (late k)
          (at_slots (h k) (omega arith))))

  pub received-IsCounted : (j : ℕ) → AllCounted (received_with_keypair s j).1 held late
  unfolding received_with_keypair
  received-IsCounted j k = elim (Bool-cases (is_slot s.next_keypair j)) [
    | inr e ↦ simp e (h k)
    | inl e ↦ simp e (
        keypair_put-IsCounted s.previous_keypair s.pairs k
          (in_slot (some j) k + in_slot s.current_keypair k + 0) (held k) (late k)
          (at_slots (h k) (moved e)))
  ]
    where
      moved :
          is_slot s.next_keypair j ≡ true
          → slots s k
            ≡ in_slot s.previous_keypair k + (in_slot (some j) k + in_slot s.current_keypair k + 0)
      moved e = omega (arith, in_slot_eq s.next_keypair j k e)

  stop_sending-IsCounted :
      (o : Option ℕ) (m : ℕ → Keypair) (k slotted : ℕ)
      → IsCounted (m k) slotted (held k) (late k)
      → IsCounted (stop_sending o m k) slotted (held k) (late k)
  stop_sending-IsCounted none m k slotted c = c
  stop_sending-IsCounted (some j) m k slotted c = record {
    counted = ground (arith, c.counted);
    single = c.single;
    findable = ground (arith, c.findable);
    allocated = ground (arith, c.allocated);
  }

  pub expire-IsCounted : AllCounted (expire_current_peer_keypairs s) held late
  unfolding expire_current_peer_keypairs
  expire-IsCounted k =
      stop_sending-IsCounted s.current_keypair _ k _
        (stop_sending-IsCounted s.next_keypair s.pairs k _ (h k))

-- The slot takes the reference of the thread that made the keypair.
module _ (s : Keypairs) (held : ℕ → ℕ) (late : ℕ → Bool) (new : ℕ) where
  abbrev pub MadeCounted : Type 0
  MadeCounted = (k : ℕ) → IsCounted (s.pairs k) (in_slot (some new) k + slots s k) (held k) (late k)

  module _ (h : MadeCounted) where
    initiator-IsCounted :
        (o : Option ℕ) → s.next_keypair ≡ o → AllCounted (add_as_initiator s new o) held late
    initiator-IsCounted none e k = rw e (
        keypair_put-IsCounted s.previous_keypair s.pairs k
          (in_slot (some new) k + in_slot s.current_keypair k + 0) (held k) (late k)
          (at_slots (h k) (rw e (omega arith))))
    initiator-IsCounted (some other) e k =
        keypair_put-IsCounted s.previous_keypair _ k
          (in_slot (some new) k + in_slot (some other) k + 0) (held k) (late k)
          (keypair_put-IsCounted s.current_keypair s.pairs k
            (in_slot s.previous_keypair k + (in_slot (some new) k + in_slot (some other) k + 0))
            (held k) (late k) (at_slots (h k) (rw e (omega arith))))

    responder-IsCounted :
        AllCounted
          (record s {
            next_keypair = some new;
            previous_keypair = none;
            pairs = keypair_put s.previous_keypair true (keypair_put s.next_keypair true s.pairs);
          })
          held
          late
    responder-IsCounted k =
        keypair_put-IsCounted s.previous_keypair _ k
          (in_slot s.current_keypair k + 0 + in_slot (some new) k) (held k) (late k)
          (keypair_put-IsCounted s.next_keypair s.pairs k
            (in_slot s.previous_keypair k
              + (in_slot s.current_keypair k + 0 + in_slot (some new) k))
            (held k) (late k) (at_slots (h k) (omega arith)))

    pub add_new_keypair-IsCounted : AllCounted (add_new_keypair s new) held late
    unfolding add_new_keypair
    add_new_keypair-IsCounted = elim (Bool-cases (s.pairs new).i_am_the_initiator) [
      | inl e ↦ simp e (initiator-IsCounted s.next_keypair refl)
      | inr e ↦ simp e responder-IsCounted
    ]

-- A keypair that stands in no slot when it comes into the hashtable is late.
pub keypair_hash-IsCounted :
    (s : Keypairs) (held : ℕ → ℕ) (late : ℕ → Bool) (handshake_hashed : Bool) (new : ℕ)
    → AllCounted s held late
    → AllCounted (keypair_hash handshake_hashed new s) held (update late new (slots s new == 0))
unfolding keypair_hash
keypair_hash-IsCounted s held late handshake_hashed new h k = record {
  counted = ground (arith, (h k).counted, (h new).counted);
  single = ground (arith, (h k).single);
  findable = ground (arith, (h k).findable, (h k).single);
  allocated = ground (arith, (h k).allocated, (h new).allocated);
}
