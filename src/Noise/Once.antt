-- ===== src/Noise/Once.antt =====
-- An initiation that was consumed is never consumed again.
use wireguard_receive_path.Prelude.{
  ℕ, false, ◌||◌, ◌≡◌, if◌then◌else◌, Option, none, some, List, [], ◌∷◌, Bytes, is_greater,
  is_greater_self, is_greater_trans, greater_first, update, update_self, update_each, refl, sym, ap,
  ◌∙◌, Bool-cases, inl, inr, subst,
}
use wireguard_receive_path.Noise.{Crypto, Handshake, Initiation}
use wireguard_receive_path.Noise.Message.{
  Device, read_initiation, is_replay_attack, is_flood_attack, accept_initiation, consume_initiation,
}

-- One call of wg_noise_handshake_consume_initiation, with its readings of the clock. Other threads do
-- what they like to the handshake between its two locks, but for two things: the precomputed key is
-- never written, and the latest timestamp is only replaced by a greater one.
pub record Consumption : Type 0 where
  pub src : Initiation
  pub now : ℕ
  pub later : ℕ
  pub meanwhile : Handshake → Handshake
  pub keeps_static :
      (h : Handshake) → (meanwhile h).precomputed_static_static ≡ h.precomputed_static_static
  pub keeps_order :
      (h : Handshake) → is_greater h.latest_timestamp (meanwhile h).latest_timestamp ≡ false

module _ (c : Crypto) where
  abbrev pub consume : Consumption → Device → Option ℕ × Device
  consume x d = consume_initiation c x.now x.later x.meanwhile x.src d

  pub consume_all : List Consumption → Device → Device
  consume_all [] d = d
  consume_all (x ∷ xs) d = consume_all xs (consume x d).1

  -- A device after another: the same but for its handshakes, and those with later timestamps.
  record IsAfter (d d' : Device) : Type 0 where
    same_identity : d'.identity ≡ d.identity
    same_peers : d'.pubkey_lookup ≡ d.pubkey_lookup
    same_static :
        (p : ℕ) → (d'.peers p).precomputed_static_static ≡ (d.peers p).precomputed_static_static
    ordered :
        (p : ℕ) → is_greater (d.peers p).latest_timestamp (d'.peers p).latest_timestamp ≡ false

  IsAfter-self : (d : Device) → IsAfter d d
  IsAfter-self d = record {
    same_identity = refl;
    same_peers = refl;
    same_static = λ p. refl;
    ordered = λ p. is_greater_self (d.peers p).latest_timestamp;
  }

  IsAfter-trans : (d d' d'' : Device) → IsAfter d d' → IsAfter d' d'' → IsAfter d d''
  IsAfter-trans d d' d'' a b = record {
    same_identity = b.same_identity ∙ a.same_identity;
    same_peers = b.same_peers ∙ a.same_peers;
    same_static = λ p. b.same_static p ∙ a.same_static p;
    ordered = λ p.
        is_greater_trans (d.peers p).latest_timestamp (d'.peers p).latest_timestamp
          (d''.peers p).latest_timestamp (a.ordered p) (b.ordered p);
  }

  -- The greater of two timestamps is kept.
  kept_order :
      (t a b : Bytes)
      → is_greater a b ≡ false
      → is_greater a (if is_greater t b then t else b) ≡ false
  kept_order t a b h = elim (Bool-cases (is_greater t b)) [
    | inl e ↦ simp (e) (is_greater_trans a b t h (greater_first t b e))
    | inr e ↦ simp (e) h
  ]

  accepted-IsAfter :
      (x : Consumption) (d : Device) (p : ℕ) (k : Bytes × Bytes × Bytes × Bytes)
      → IsAfter d (record d {
        peers =
            update d.peers p
              (accept_initiation c x.later x.src.sender_index k (x.meanwhile (d.peers p)));
      })
  unfolding accept_initiation
  accepted-IsAfter x d p (t, e, ck, hash) = record {
    same_identity = refl;
    same_peers = refl;
    same_static =
        update_each (λ q h. h.precomputed_static_static ≡ (d.peers q).precomputed_static_static)
          d.peers p
          (accept_initiation c x.later x.src.sender_index (t, e, ck, hash)
            (x.meanwhile (d.peers p)))
          (x.keeps_static (d.peers p)) (λ q. refl);
    ordered =
        update_each (λ q h. is_greater (d.peers q).latest_timestamp h.latest_timestamp ≡ false)
          d.peers p
          (accept_initiation c x.later x.src.sender_index (t, e, ck, hash)
            (x.meanwhile (d.peers p)))
          (kept_order t (d.peers p).latest_timestamp (x.meanwhile (d.peers p)).latest_timestamp
            (x.keeps_order (d.peers p)))
          (λ q. is_greater_self (d.peers q).latest_timestamp);
  }

  abbrev static_static : Device → ℕ → Bytes
  static_static d p = (d.peers p).precomputed_static_static

  abbrev reads : Device → Initiation → Option (ℕ × Bytes × Bytes × Bytes × Bytes)
  reads d src = read_initiation c d.identity d.pubkey_lookup (static_static d) src

  -- What is left of a call once the message is read.
  abbrev finish :
      Consumption → Device → Option (ℕ × Bytes × Bytes × Bytes × Bytes) → Option ℕ × Device
  finish x d none = (none, d)
  finish x d (some (p, t, e, ck, hash)) =
      let h = d.peers p in
      if is_replay_attack c t h || is_flood_attack c x.now h then (none, d) else (
        some p,
        record d {
          peers =
              update d.peers p
                (accept_initiation c x.later x.src.sender_index (t, e, ck, hash) (x.meanwhile h));
        },
      )

  consume-finish : (x : Consumption) (d : Device) → consume x d ≡ finish x d (reads d x.src)
  unfolding consume_initiation
  consume-finish x d = refl

  finish-IsAfter :
      (x : Consumption) (d : Device) (r : Option (ℕ × Bytes × Bytes × Bytes × Bytes))
      → IsAfter d (finish x d r).1
  finish-IsAfter x d none = IsAfter-self d
  finish-IsAfter x d (some (p, t, e, ck, hash)) =
      elim (Bool-cases (is_replay_attack c t (d.peers p) || is_flood_attack c x.now (d.peers p))) [
        | inl bad ↦ simp (bad) (IsAfter-self d)
        | inr good ↦ simp (good) (accepted-IsAfter x d p (t, e, ck, hash))
      ]

  consume_all-IsAfter : (xs : List Consumption) (d : Device) → IsAfter d (consume_all xs d)
  unfolding consume_all
  consume_all-IsAfter [] d = IsAfter-self d
  consume_all-IsAfter (x ∷ xs) d =
      let now =
        subst (λ r. IsAfter d r.1) (sym (consume-finish x d))
          (finish-IsAfter x d (reads d x.src)) in
      IsAfter-trans d (consume x d).1 (consume_all xs (consume x d).1) now
        (consume_all-IsAfter xs (consume x d).1)

  -- A device afterwards reads the same in a message.
  after-reads : (d d' : Device) (src : Initiation) → IsAfter d d' → reads d' src ≡ reads d src
  after-reads d d' src a =
      ap (λ id. read_initiation c id d'.pubkey_lookup (static_static d') src) a.same_identity
      ∙ ap (λ l. read_initiation c d.identity l (static_static d') src) a.same_peers
      ∙ ap (λ s. read_initiation c d.identity d.pubkey_lookup s src) (λ i p. a.same_static p i)

  -- The timestamp of a message is not later than the latest of its peer.
  abbrev IsSpent : Device → Option (ℕ × Bytes × Bytes × Bytes × Bytes) → Type 0
  IsSpent d none = Unit
  IsSpent d (some (p, t, e, ck, hash)) = is_greater t (d.peers p).latest_timestamp ≡ false

  latest_kept : (t a : Bytes) → is_greater t (if is_greater t a then t else a) ≡ false
  latest_kept t a = elim (Bool-cases (is_greater t a)) [
    | inl e ↦ simp (e) (is_greater_self t)
    | inr e ↦ simp (e) refl
  ]

  finish-IsSpent :
      (x : Consumption) (d : Device) (p : ℕ) (r : Option (ℕ × Bytes × Bytes × Bytes × Bytes))
      → (finish x d r).0 ≡ some p
      → IsSpent (finish x d r).1 r
  unfolding accept_initiation
  finish-IsSpent x d p none h = tt
  finish-IsSpent x d p (some (q, t, e, ck, hash)) h =
      elim (Bool-cases (is_replay_attack c t (d.peers q) || is_flood_attack c x.now (d.peers q))) [
        | inl bad ↦ let h' : none ≡ some p = simp (bad) at h in absurd (cc)
        | inr good ↦
            simp (good)
              (simp (update_self) (latest_kept t (x.meanwhile (d.peers q)).latest_timestamp))
      ]

  after-IsSpent :
      (d d' : Device) (r : Option (ℕ × Bytes × Bytes × Bytes × Bytes))
      → IsAfter d d'
      → IsSpent d r
      → IsSpent d' r
  after-IsSpent d d' none a h = tt
  after-IsSpent d d' (some (p, t, e, ck, hash)) a h =
      is_greater_trans t (d.peers p).latest_timestamp (d'.peers p).latest_timestamp h (a.ordered p)

  spent-finish :
      (y : Consumption) (d : Device) (r : Option (ℕ × Bytes × Bytes × Bytes × Bytes))
      → IsSpent d r
      → finish y d r ≡ (none, d)
  spent-finish y d none h = refl
  spent-finish y d (some (p, t, e, ck, hash)) h = simp (h) refl

  -- An initiation that was consumed is refused whenever it comes again, by whichever clock, after any
  -- sequence of calls of wg_noise_handshake_consume_initiation with any messages, while other threads
  -- change the handshakes but leave the precomputed keys and lower no timestamp: no peer is found, and
  -- the device stays as it is.
  pub consume_initiation-once :
      (x : Consumption) (d : Device) (p : ℕ) (xs : List Consumption) (y : Consumption)
      → (consume x d).0 ≡ some p
      → y.src ≡ x.src
      → let d' = consume_all xs (consume x d).1 in consume y d' ≡ (none, d')
  consume_initiation-once x d p xs y accepted same =
      let once = (consume x d).1 in
      let d' = consume_all xs once in
      let first =
        subst (λ r. IsAfter d r.1) (sym (consume-finish x d))
          (finish-IsAfter x d (reads d x.src)) in
      let later = consume_all-IsAfter xs once in
      let spent = after-IsSpent once d' (reads d x.src) later (
        subst (λ r. IsSpent r.1 (reads d x.src)) (sym (consume-finish x d))
          (finish-IsSpent x d p (reads d x.src)
            (sym (ap (λ r. r.0) (consume-finish x d)) ∙ accepted))) in
      consume-finish y d'
      ∙ ap (finish y d')
          (ap (reads d') same ∙ after-reads d d' x.src (IsAfter-trans d once d' first later))
      ∙ spent-finish y d' (reads d x.src) spent
