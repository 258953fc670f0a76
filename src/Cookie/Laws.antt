-- ===== src/Cookie/Laws.antt =====
-- What a device gets for a cookie that it was sent.
use wireguard_receive_path.Prelude.{
  ℕ, ◌-◌, Bool, true, false, not, ◌≡◌, if◌then◌else◌, some, [], ◌++◌, Bytes, same_bytes_self, refl,
  sym, ap, ◌∙◌, Bool-cases, inl, inr,
}
use wireguard_receive_path.Cookie.{
  Crypto, Checker, Cookie, Source, MacState, valid_mac_with_cookie_but_ratelimited,
  valid_mac_with_cookie, secret_max_age, secret_latency, birthdate_has_expired, precompute_key,
  precompute_device_keys, precompute_peer_keys, compute_mac1, compute_mac2, renew_secret,
  make_cookie, validate_packet, add_mac_to_packet, message_create, message_consume,
}

-- What the cookies rely on: a text that was encrypted is decrypted with the same data, nonce and key.
pub record IsSound (c : Crypto) : Type 0 where
  pub decrypts :
      (plaintext ad nonce key : Bytes)
      → c.decrypt (c.encrypt plaintext ad nonce key) ad nonce key ≡ some plaintext

-- The times and random strings of an exchange: when the first message is sent, its answer made and
-- read, the second message sent and checked.
pub record Draws : Type 0 where
  pub sent : ℕ
  pub answered : ℕ
  pub renewed : ℕ
  pub received : ℕ
  pub sent_again : ℕ
  pub checked : ℕ
  pub renewed_again : ℕ
  pub secret : Bytes
  pub other_secret : Bytes
  pub nonce : Bytes

ended :
    (s : Checker) (allowed : Bool)
    → let r : MacState × Checker =
        if not allowed
        then (valid_mac_with_cookie_but_ratelimited, s)
        else (valid_mac_with_cookie, s) in
      r.0 ≡ (if allowed then valid_mac_with_cookie else valid_mac_with_cookie_but_ratelimited)
ended s true = refl
ended s false = refl

module _ (c : Crypto) (w : Draws) (source : Source) where
  -- The checker after its answer to the first message.
  abbrev pub checker_after : Checker → Checker
  checker_after s = renew_secret c w.answered w.renewed w.secret s

  -- A device sends `first`, is answered with a cookie, takes it, sends `second`, and the other checks
  -- that with its answer of the rate limiter.
  unfoldable pub exchange :
      (first second : Bytes) (index : ℕ) (allowed : Bool) → Cookie → Checker → MacState
  exchange first second index allowed k s =
      let sent = add_mac_to_packet c w.sent first k in
      let reply = message_create c w.answered w.renewed w.secret w.nonce index source sent.0 s in
      let k' = message_consume c w.received reply.0 sent.1 in
      let again = add_mac_to_packet c w.sent_again second k' in
      (validate_packet c w.checked w.renewed_again w.other_secret allowed true source again.0
        reply.1).0

  renewed_key : (s : Checker) → (checker_after s).message_mac1_key ≡ s.message_mac1_key
  unfolding renew_secret
  renewed_key s =
      elim (Bool-cases (birthdate_has_expired w.answered s.secret_birthdate secret_max_age)) [
        | inl e ↦ simp (e) refl
        | inr e ↦ simp (e) refl
      ]

  module _ (sound : IsSound c) where
    -- The cookie that is received is the one that was made.
    message_consume-message_create :
        (first : Bytes) (index : ℕ) (k : Cookie) (s : Checker)
        → k.cookie_decryption_key ≡ s.cookie_encryption_key
        → let sent = add_mac_to_packet c w.sent first k in
          message_consume c w.received
            (message_create c w.answered w.renewed w.secret w.nonce index source sent.0 s).0
            sent.1
          ≡ record (sent.1) {
            cookie = (make_cookie c w.answered w.renewed w.secret source s).0;
            birthdate = w.received;
            is_valid = true;
            have_sent_mac1 = false;
          }
    unfolding message_consume message_create add_mac_to_packet
    message_consume-message_create first index k s same =
        rw
          (opened (make_cookie c w.answered w.renewed w.secret source s).0
            (compute_mac1 c (record { body = first; mac1 = []; mac2 = [] }) k.message_mac1_key))
          refl
      where
        opened :
            (x ad : Bytes)
            → c.decrypt
                (c.encrypt x ad w.nonce s.cookie_encryption_key)
                ad
                w.nonce
                k.cookie_decryption_key
              ≡ some x
        opened x ad =
            ap (λ key. c.decrypt (c.encrypt x ad w.nonce s.cookie_encryption_key) ad w.nonce key)
              same
            ∙ sound.decrypts x ad w.nonce s.cookie_encryption_key

    -- The second message carries a code of the cookie, and the checker makes the same cookie again.
    checked_again :
        (body : Bytes) (allowed : Bool) (k : Cookie) (s : Checker)
        → k.is_valid ≡ true
        → k.message_mac1_key ≡ s.message_mac1_key
        → birthdate_has_expired w.sent_again k.birthdate (secret_max_age - secret_latency) ≡ false
        → birthdate_has_expired w.checked s.secret_birthdate secret_max_age ≡ false
        → k.cookie ≡ c.blake2s 16 s.secret (source.address ++ source.port)
        → (validate_packet c w.checked w.renewed_again w.other_secret allowed true source
            (add_mac_to_packet c w.sent_again body k).0
            s).0
          ≡ (if allowed then valid_mac_with_cookie else valid_mac_with_cookie_but_ratelimited)
    unfolding validate_packet make_cookie renew_secret add_mac_to_packet compute_mac1 compute_mac2
    checked_again body allowed k s valid key young fresh made =
        simp (fresh, key, valid, young, made) (simp (same_bytes_self) (ended s allowed))

    -- A device that knows another's public key sends it a message, takes the cookie that the other
    -- answers with, and sends a second message from the same address within 115 s of that. The other
    -- accepts the second message as one with a cookie, if its secret is not older than 120 s by then,
    -- and only its rate limiter can still refuse it.
    pub exchange-MacState :
        (pubkey first second : Bytes) (index : ℕ) (allowed : Bool) (k : Cookie) (s : Checker)
        → birthdate_has_expired w.sent_again w.received (secret_max_age - secret_latency) ≡ false
        → birthdate_has_expired w.checked
            (checker_after (precompute_device_keys c true pubkey s)).secret_birthdate
            secret_max_age
          ≡ false
        → exchange first second index allowed
            (precompute_peer_keys c pubkey k)
            (precompute_device_keys c true pubkey s)
          ≡ (if allowed then valid_mac_with_cookie else valid_mac_with_cookie_but_ratelimited)
    unfolding exchange precompute_peer_keys precompute_device_keys make_cookie message_create
        add_mac_to_packet precompute_key
    exchange-MacState pubkey first second index allowed k s young fresh =
        let k' = precompute_peer_keys c pubkey k in
        let s' = precompute_device_keys c true pubkey s in
        let sent = add_mac_to_packet c w.sent first k' in
        let taken = record (sent.1) {
          cookie = (make_cookie c w.answered w.renewed w.secret source s').0;
          birthdate = w.received;
          is_valid = true;
          have_sent_mac1 = false;
        } in
        ap
          (λ k2.
            (validate_packet c w.checked w.renewed_again w.other_secret allowed true source
              (add_mac_to_packet c w.sent_again second k2).0 (checker_after s')).0)
          (message_consume-message_create first index k' s' refl)
        ∙ checked_again second allowed taken (checker_after s') refl (sym (renewed_key s')) young
            fresh refl
