-- ===== src/Noise/Message.antt =====
-- The four steps of a handshake: each side creates its message and consumes the other's.
use wireguard_receive_path.Prelude.{
  signed, ℕ, ◌+◌, ◌^◌, Bool, true, false, not, ltb, leb, ◌||◌, if◌then◌else◌, Option, none, some,
  [], Bytes, is_greater, update, sub64,
}
use wireguard_receive_path.Keypairs.Session.{
  HandshakeState, created_initiation, consumed_initiation, created_response, consumed_response,
}
use wireguard_receive_path.Noise.{Crypto, Identity, Handshake, Initiation, Response}
use wireguard_receive_path.Noise.Mix.{
  mix_dh, mix_precomputed_dh, mix_psk, handshake_init, message_encrypt, message_decrypt,
  message_ephemeral,
}

-- The handshake with an ephemeral key, a chaining key and a hash.
abbrev pub mixed : Handshake → (private : Bytes) → Bytes × Bytes → Handshake
mixed h private k = record h { ephemeral_private = private; chaining_key = k.0; hash = k.1 }

abbrev pub is_created_initiation : HandshakeState → Bool
is_created_initiation created_initiation = true
is_created_initiation _ = false

abbrev pub is_consumed_initiation : HandshakeState → Bool
is_consumed_initiation consumed_initiation = true
is_consumed_initiation _ = false

-- NSEC_PER_SEC / INITIATIONS_PER_SECOND
abbrev pub initiation_interval : ℕ
initiation_interval = 20000000

-- A device: its key, the peers that wg_pubkey_hashtable_lookup and wg_index_hashtable_lookup find, and
-- the handshake of each.
pub record Device : Type 0 where
  pub identity : Identity
  pub pubkey_lookup : Bytes → Option ℕ
  pub index_lookup : ℕ → Option ℕ
  pub peers : ℕ → Handshake

module _ (c : Crypto) where
  -- wg_noise_handshake_create_initiation: `private` is the ephemeral key that is drawn, `timestamp`
  -- what tai64n_now says, and `index` what wg_index_hashtable_insert answers. Where it fails, the
  -- handshake keeps what was written so far.
  unfoldable pub create_initiation :
      Identity → (private timestamp : Bytes) (index : ℕ) → Handshake → Option Initiation × Handshake
  create_initiation id private timestamp index h =
      let start = handshake_init c h.remote_static in
      if not id.has_identity then (none, h) else elim (c.curve25519_generate_public private) [
        | none ↦ (none, mixed h private start)
        | some e ↦
            let after_e = message_ephemeral c e start.0 start.1 in
            elim (mix_dh c after_e.0 private h.remote_static) [
              | none ↦ (none, mixed h private after_e)
              | some k ↦
                  let s = message_encrypt c id.static_public k.1 after_e.1 in
                  elim (mix_precomputed_dh c k.0 h.precomputed_static_static) [
                    | none ↦ (none, mixed h private (k.0, s.1))
                    | some k' ↦
                        let t = message_encrypt c timestamp k'.1 s.1 in
                        (
                          some (record {
                            sender_index = index;
                            unencrypted_ephemeral = e;
                            encrypted_static = s.0;
                            encrypted_timestamp = t.0;
                          }),
                          record (mixed h private (k'.0, t.1)) { state = created_initiation },
                        )
                  ]
            ]
      ]

  -- What an initiation says, if it can be read: the peer, and the timestamp, ephemeral key, chaining
  -- key and hash. `static_static` is the precomputed key of each peer.
  unfoldable pub read_initiation :
      Identity
      → (pubkey_lookup : Bytes → Option ℕ) → (static_static : ℕ → Bytes) → Initiation
      → Option (ℕ × Bytes × Bytes × Bytes × Bytes)
  read_initiation id pubkey_lookup static_static src =
      let start = handshake_init c id.static_public in
      let e = src.unencrypted_ephemeral in
      let after_e = message_ephemeral c e start.0 start.1 in
      if not id.has_identity then none else elim (mix_dh c after_e.0 id.static_private e) [
        | none ↦ none
        | some (ck, key) ↦ elim (message_decrypt c src.encrypted_static key after_e.1) [
          | none ↦ none
          | some (s, hash) ↦ elim (pubkey_lookup s) [
            | none ↦ none
            | some p ↦ elim (mix_precomputed_dh c ck (static_static p)) [
              | none ↦ none
              | some (ck', key') ↦ elim (message_decrypt c src.encrypted_timestamp key' hash) [
                | none ↦ none
                | some (t, hash') ↦ some (p, t, e, ck', hash')
              ]
            ]
          ]
        ]
      ]

  -- The handshake is neither of a replayed initiation, nor too early after the last one.
  abbrev pub is_replay_attack : Bytes → Handshake → Bool
  is_replay_attack t h = not (is_greater t h.latest_timestamp)

  abbrev pub is_flood_attack : (now : ℕ) → Handshake → Bool
  is_flood_attack now h =
      ltb (signed now) (signed h.last_initiation_consumption + initiation_interval)

  -- What is written to the peer, at the time `now`.
  unfoldable pub accept_initiation :
      (now index : ℕ) → Bytes × Bytes × Bytes × Bytes → Handshake → Handshake
  accept_initiation now index (t, e, ck, hash) h =
      let wait = sub64 h.last_initiation_consumption now in
      record h {
        remote_ephemeral = e;
        latest_timestamp = if is_greater t h.latest_timestamp then t else h.latest_timestamp;
        hash = hash;
        chaining_key = ck;
        remote_index = index;
        last_initiation_consumption =
            if leb (2 ^ 63) wait then now else h.last_initiation_consumption;
        state = consumed_initiation;
      }

  -- wg_noise_handshake_consume_initiation: `now` and `later` are the two readings of the clock, and
  -- `meanwhile` is what other threads do to the peer's handshake between its two locks.
  unfoldable pub consume_initiation :
      (now later : ℕ) (meanwhile : Handshake → Handshake) → Initiation → Device → Option ℕ × Device
  unfolding read_initiation
  consume_initiation now later meanwhile src d =
      let read =
        read_initiation d.identity d.pubkey_lookup (λ p. (d.peers p).precomputed_static_static)
          src in
      elim read [
        | none ↦ (none, d)
        | some (p, t, e, ck, hash) ↦
            let h = d.peers p in
            if is_replay_attack t h || is_flood_attack now h then (none, d) else (
              some p,
              record d {
                peers =
                    update d.peers p
                      (accept_initiation later src.sender_index (t, e, ck, hash) (meanwhile h));
              },
            )
      ]

  -- wg_noise_handshake_create_response
  unfoldable pub create_response :
      (private : Bytes) (index : ℕ) → Handshake → Option Response × Handshake
  create_response private index h =
      if not (is_consumed_initiation h.state)
      then (none, h)
      else elim (c.curve25519_generate_public private) [
        | none ↦ (none, mixed h private (h.chaining_key, h.hash))
        | some e ↦
            let after_e = message_ephemeral c e h.chaining_key h.hash in
            elim (mix_dh c after_e.0 private h.remote_ephemeral) [
              | none ↦ (none, mixed h private after_e)
              | some k ↦ elim (mix_dh c k.0 private h.remote_static) [
                | none ↦ (none, mixed h private (k.0, after_e.1))
                | some k' ↦
                    let p = mix_psk c k'.0 after_e.1 h.preshared_key in
                    let n = message_encrypt c [] p.2 p.1 in
                    (
                      some (record {
                        sender_index = index;
                        receiver_index = h.remote_index;
                        unencrypted_ephemeral = e;
                        encrypted_nothing = n.0;
                      }),
                      record (mixed h private (p.0, n.1)) { state = created_response },
                    )
              ]
            ]
      ]

  -- What a response leads to, from a copy of the handshake: the chaining key and hash.
  unfoldable pub read_response : Identity → Response → Handshake → Option (Bytes × Bytes)
  read_response id src h =
      let e = src.unencrypted_ephemeral in
      let after_e = message_ephemeral c e h.chaining_key h.hash in
      elim (mix_dh c after_e.0 h.ephemeral_private e) [
        | none ↦ none
        | some (ck, _) ↦ elim (mix_dh c ck id.static_private e) [
          | none ↦ none
          | some (ck', _) ↦
              let p = mix_psk c ck' after_e.1 h.preshared_key in
              elim (message_decrypt c src.encrypted_nothing p.2 p.1) [
                | none ↦ none
                | some (_, hash) ↦ some (p.0, hash)
              ]
        ]
      ]

  -- wg_noise_handshake_consume_response, with what other threads do between the two locks
  unfoldable pub consume_response :
      (meanwhile : Handshake → Handshake) → Response → Device → Option ℕ × Device
  unfolding read_response
  consume_response meanwhile src d =
      if not d.identity.has_identity then (none, d) else elim (d.index_lookup src.receiver_index) [
        | none ↦ (none, d)
        | some p ↦
            let h = d.peers p in
            let h' = meanwhile h in
            let changed = record d { peers = update d.peers p h' } in
            if not (is_created_initiation h.state)
            then (none, d)
            else elim (read_response d.identity src h) [
              | none ↦ (none, d)
              | some (ck, hash) ↦
                  if not (is_created_initiation h'.state) then (none, changed) else (
                    some p,
                    record d {
                      peers = update d.peers p (record h' {
                        remote_ephemeral = src.unencrypted_ephemeral;
                        hash = hash;
                        chaining_key = ck;
                        remote_index = src.sender_index;
                        state = consumed_response;
                      });
                    },
                  )
            ]
      ]
