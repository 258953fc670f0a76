-- ===== src/Noise/Transcript.antt =====
-- What each step of a handshake comes to where it succeeds.
use wireguard_receive_path.Prelude.{
  ℕ, true, false, ◌≡◌, some, [], Bytes, is_greater, is_zero, update, refl, ap, ◌∙◌,
}
use wireguard_receive_path.Keypairs.Session.{
  created_initiation, consumed_initiation, created_response, consumed_response,
}
use wireguard_receive_path.Noise.{Crypto, Identity, Handshake, Initiation, Response}
use wireguard_receive_path.Noise.Mix.{
  mix_dh, mix_precomputed_dh, mix_psk, handshake_init, message_encrypt, message_decrypt,
  message_ephemeral, kdf,
}
use wireguard_receive_path.Noise.Message.{
  Device, create_initiation, read_initiation, is_flood_attack, accept_initiation,
  consume_initiation, create_response, read_response, consume_response,
}

-- What the handshake relies on: a text that was encrypted is decrypted with the same key and data, and
-- the two sides of an exchange of public keys get the same secret, which curve25519 answers only if it
-- is not zero.
pub record IsSound (c : Crypto) : Type 0 where
  pub decrypts :
      (plaintext ad key : Bytes) → c.decrypt (c.encrypt plaintext ad key) ad key ≡ some plaintext
  pub shares :
      (a b public_a public_b : Bytes)
      → c.curve25519_generate_public a ≡ some public_a
      → c.curve25519_generate_public b ≡ some public_b
      → c.curve25519 a public_b ≡ c.curve25519 b public_a
  pub is_not_zero : (a b k : Bytes) → c.curve25519 a b ≡ some k → is_zero k ≡ false

-- What an initiation with these keys looks like, and the chaining key and hash after it.
module _ (c : Crypto) (responder static e es ss timestamp : Bytes) where
  abbrev pub after_e : Bytes × Bytes
  after_e = message_ephemeral c e (handshake_init c responder).0 (handshake_init c responder).1

  abbrev pub sealed_static : Bytes × Bytes
  sealed_static = message_encrypt c static (kdf c es after_e.0).1 after_e.1

  abbrev pub ss_keys : Bytes × Bytes × Bytes
  ss_keys = kdf c ss (kdf c es after_e.0).0

  abbrev pub sealed_timestamp : Bytes × Bytes
  sealed_timestamp = message_encrypt c timestamp ss_keys.1 sealed_static.1

  abbrev pub initiation : ℕ → Initiation
  initiation index = record {
    sender_index = index;
    unencrypted_ephemeral = e;
    encrypted_static = sealed_static.0;
    encrypted_timestamp = sealed_timestamp.0;
  }

-- The same of a response, from the chaining key and hash before it.
module _ (c : Crypto) (ck hash e ee se psk : Bytes) where
  abbrev after_re : Bytes × Bytes
  after_re = message_ephemeral c e ck hash

  abbrev pub psk_keys : Bytes × Bytes × Bytes
  psk_keys = mix_psk c (kdf c se (kdf c ee after_re.0).0).0 after_re.1 psk

  abbrev pub sealed_nothing : Bytes × Bytes
  sealed_nothing = message_encrypt c [] psk_keys.2 psk_keys.1

  abbrev pub response : (index receiver : ℕ) → Response
  response index receiver = record {
    sender_index = index;
    receiver_index = receiver;
    unencrypted_ephemeral = e;
    encrypted_nothing = sealed_nothing.0;
  }

module _ (c : Crypto) where
  mix_dh-some :
      (ck private public dh : Bytes)
      → c.curve25519 private public ≡ some dh
      → mix_dh c ck private public ≡ some ((kdf c dh ck).0, (kdf c dh ck).1)
  unfolding mix_dh
  mix_dh-some ck private public dh h = rw (h, mix_dh) refl

  mix_precomputed_dh-some :
      (ck dh : Bytes)
      → is_zero dh ≡ false
      → mix_precomputed_dh c ck dh ≡ some ((kdf c dh ck).0, (kdf c dh ck).1)
  unfolding mix_precomputed_dh
  mix_precomputed_dh-some ck dh h = rw (h, mix_precomputed_dh) refl

  create_initiation-initiation :
      (id : Identity) (private t : Bytes) (index : ℕ) (h : Handshake) (e es : Bytes)
      → id.has_identity ≡ true
      → c.curve25519_generate_public private ≡ some e
      → c.curve25519 private h.remote_static ≡ some es
      → is_zero h.precomputed_static_static ≡ false
      → create_initiation c id private t index h ≡ (
        some (
            initiation c h.remote_static id.static_public e es h.precomputed_static_static t index),
        record h {
          ephemeral_private = private;
          chaining_key =
              (ss_keys c h.remote_static id.static_public e es h.precomputed_static_static t).0;
          hash =
              (sealed_timestamp c h.remote_static id.static_public e es h.precomputed_static_static
                t).1;
          state = created_initiation;
        },
      )
  unfolding create_initiation
  create_initiation-initiation id private t index h e es has gen dh nz = rw has (
      rw gen (
        rw
          (mix_dh-some
            (after_e c h.remote_static id.static_public e es h.precomputed_static_static t).0
            private h.remote_static es dh)
          (rw (mix_precomputed_dh-some _ h.precomputed_static_static nz) refl)))

module _ (c : Crypto) (sound : IsSound c) where
  message_decrypt-message_encrypt :
      (plain key hash : Bytes)
      → message_decrypt c (message_encrypt c plain key hash).0 key hash
        ≡ some (plain, (message_encrypt c plain key hash).1)
  unfolding message_decrypt message_encrypt
  message_decrypt-message_encrypt plain key hash =
      rw (sound.decrypts plain hash key, message_decrypt) refl

  read_initiation-initiation :
      (r : Device) (q index : ℕ) (static e es t : Bytes)
      → r.identity.has_identity ≡ true
      → c.curve25519 r.identity.static_private e ≡ some es
      → r.pubkey_lookup static ≡ some q
      → is_zero (r.peers q).precomputed_static_static ≡ false
      → let ss = (r.peers q).precomputed_static_static in
        let responder = r.identity.static_public in
        read_initiation c r.identity r.pubkey_lookup
          (λ p. (r.peers p).precomputed_static_static)
          (initiation c responder static e es ss t index)
        ≡ some (
          q,
          t,
          e,
          (ss_keys c responder static e es ss t).0,
          (sealed_timestamp c responder static e es ss t).1,
        )
  unfolding read_initiation
  read_initiation-initiation r q index static e es t has dh known nz =
      let ss = (r.peers q).precomputed_static_static in
      let responder = r.identity.static_public in
      let first = after_e c responder static e es ss t in
      rw has (
        rw (mix_dh-some c first.0 r.identity.static_private e es dh) (
          rw (message_decrypt-message_encrypt static (kdf c es first.0).1 first.1) (
            rw known (
              rw (mix_precomputed_dh-some c (kdf c es first.0).0 ss nz) (
                rw
                  (message_decrypt-message_encrypt t (ss_keys c responder static e es ss t).1
                    (sealed_static c responder static e es ss t).1)
                  refl)))))

  pub create_response-response :
      (private : Bytes) (index : ℕ) (h : Handshake) (e ee se : Bytes)
      → h.state ≡ consumed_initiation
      → c.curve25519_generate_public private ≡ some e
      → c.curve25519 private h.remote_ephemeral ≡ some ee
      → c.curve25519 private h.remote_static ≡ some se
      → create_response c private index h ≡ (
        some (response c h.chaining_key h.hash e ee se h.preshared_key index h.remote_index),
        record h {
          ephemeral_private = private;
          chaining_key = (psk_keys c h.chaining_key h.hash e ee se h.preshared_key).0;
          hash = (sealed_nothing c h.chaining_key h.hash e ee se h.preshared_key).1;
          state = created_response;
        },
      )
  unfolding create_response
  create_response-response private index h e ee se st gen dh dh' = rw st (
      rw gen (
        rw
          (mix_dh-some c (after_re c h.chaining_key h.hash e ee se h.preshared_key).0 private
            h.remote_ephemeral ee dh)
          (rw (mix_dh-some c _ private h.remote_static se dh') refl)))

  read_response-response :
      (id : Identity) (h : Handshake) (index receiver : ℕ) (e ee se psk : Bytes)
      → h.preshared_key ≡ psk
      → c.curve25519 h.ephemeral_private e ≡ some ee
      → c.curve25519 id.static_private e ≡ some se
      → read_response c id (response c h.chaining_key h.hash e ee se psk index receiver) h
        ≡ some (
          (psk_keys c h.chaining_key h.hash e ee se psk).0,
          (sealed_nothing c h.chaining_key h.hash e ee se psk).1,
        )
  unfolding read_response
  read_response-response id h index receiver e ee se psk same dh dh' =
      let keys = psk_keys c h.chaining_key h.hash e ee se psk in
      rw
        (
          mix_dh-some c (after_re c h.chaining_key h.hash e ee se psk).0 h.ephemeral_private e ee
              dh,
          read_response,
        )
        (rw (mix_dh-some c _ id.static_private e se dh')
          (simp (same) (rw (message_decrypt-message_encrypt [] keys.2 keys.1) (simp (same) refl))))

  -- The handshake of the initiator after its message.
  abbrev pub initiated :
      (private t : Bytes) (h : Handshake) (responder static e es ss : Bytes) → Handshake
  initiated private t h responder static e es ss = record h {
    ephemeral_private = private;
    chaining_key = (ss_keys c responder static e es ss t).0;
    hash = (sealed_timestamp c responder static e es ss t).1;
    state = created_initiation;
  }

  pub create_initiation-known :
      (id : Identity) (private t : Bytes) (index : ℕ) (h : Handshake) (e es responder ss : Bytes)
      → h.remote_static ≡ responder
      → h.precomputed_static_static ≡ ss
      → id.has_identity ≡ true
      → c.curve25519_generate_public private ≡ some e
      → c.curve25519 private responder ≡ some es
      → is_zero ss ≡ false
      → create_initiation c id private t index h ≡ (
        some (initiation c responder id.static_public e es ss t index),
        initiated private t h responder id.static_public e es ss,
      )
  create_initiation-known id private t index h e es responder ss remote pre has gen dh nz =
      create_initiation-initiation c id private t index h e es has gen
        (ap (λ x. c.curve25519 private x) remote ∙ dh) (ap is_zero pre ∙ nz)
      ∙ ap
          (λ x. (
            some (initiation c x id.static_public e es h.precomputed_static_static t index),
            initiated private t h x id.static_public e es h.precomputed_static_static,
          ))
          remote
      ∙ ap
          (λ x. (
            some (initiation c responder id.static_public e es x t index),
            initiated private t h responder id.static_public e es x,
          ))
          pre

  pub consume_initiation-initiation :
      (r : Device) (q index now later : ℕ) (static e es t : Bytes)
      → r.identity.has_identity ≡ true
      → c.curve25519 r.identity.static_private e ≡ some es
      → r.pubkey_lookup static ≡ some q
      → is_zero (r.peers q).precomputed_static_static ≡ false
      → is_greater t (r.peers q).latest_timestamp ≡ true
      → is_flood_attack c now (r.peers q) ≡ false
      → let ss = (r.peers q).precomputed_static_static in
        let responder = r.identity.static_public in
        consume_initiation c now later (λ h. h) (initiation c responder static e es ss t index) r
        ≡ (
          some q,
          record r {
            peers = update r.peers q (
                accept_initiation c later index
                  (
                    t,
                    e,
                    (ss_keys c responder static e es ss t).0,
                    (sealed_timestamp c responder static e es ss t).1,
                  )
                  (r.peers q));
          },
        )
  unfolding consume_initiation
  consume_initiation-initiation r q index now later static e es t has dh known nz fresh slow =
      rw (read_initiation-initiation r q index static e es t has dh known nz, consume_initiation)
        (simp (fresh, slow) refl)

  pub consume_response-response :
      (i : Device) (p index receiver : ℕ) (e ee se psk : Bytes) (h : Handshake)
      → i.peers p ≡ h
      → h.preshared_key ≡ psk
      → i.identity.has_identity ≡ true
      → i.index_lookup receiver ≡ some p
      → h.state ≡ created_initiation
      → c.curve25519 h.ephemeral_private e ≡ some ee
      → c.curve25519 i.identity.static_private e ≡ some se
      → consume_response c (λ h. h) (response c h.chaining_key h.hash e ee se psk index receiver) i
        ≡ (
          some p,
          record i {
            peers = update i.peers p (record h {
              remote_ephemeral = e;
              hash = (sealed_nothing c h.chaining_key h.hash e ee se psk).1;
              chaining_key = (psk_keys c h.chaining_key h.hash e ee se psk).0;
              remote_index = index;
              state = consumed_response;
            });
          },
        )
  unfolding consume_response
  consume_response-response i p index receiver e ee se psk h eq same has known st dh dh' =
      simp (has, known, eq, st)
        (rw (read_response-response i.identity h index receiver e ee se psk same dh dh')
          (simp (st, eq) refl))
