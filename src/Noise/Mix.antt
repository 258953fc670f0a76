-- ===== src/Noise/Mix.antt =====
-- The key schedule of noise.c: hmac, kdf, and what the handshake mixes into its hash and chaining key.
use wireguard_receive_path.Prelude.{
  ℕ, zero, suc, ltb, if◌then◌else◌, Option, none, some, [], ◌∷◌, ◌++◌, map, length, Bytes, xor_bits,
  is_zero,
}
use wireguard_receive_path.Noise.{Crypto, Identity, Handshake}
use wireguard_receive_path.Keypairs.Session.{zeroed}

-- The first `n` bytes of a string, with zeros behind it.
abbrev pub padded : ℕ → Bytes → Bytes
padded zero xs = []
padded (suc n) [] = 0 ∷ padded n []
padded (suc n) (x ∷ xs) = x ∷ padded n xs

abbrev pub zeros : ℕ → Bytes
zeros n = padded n []

-- handshake_name and identifier_name
abbrev pub handshake_name : Bytes
handshake_name =
    78 ∷ 111 ∷ 105 ∷ 115 ∷ 101 ∷ 95 ∷ 73 ∷ 75 ∷ 112 ∷ 115 ∷ 107 ∷ 50 ∷ 95 ∷ 50 ∷ 53 ∷ 53 ∷ 49 ∷ 57
    ∷ 95 ∷ 67 ∷ 104 ∷ 97 ∷ 67 ∷ 104 ∷ 97 ∷ 80 ∷ 111 ∷ 108 ∷ 121 ∷ 95 ∷ 66 ∷ 76 ∷ 65 ∷ 75 ∷ 69 ∷ 50
    ∷ 115 ∷ []

abbrev pub identifier_name : Bytes
identifier_name =
    87 ∷ 105 ∷ 114 ∷ 101 ∷ 71 ∷ 117 ∷ 97 ∷ 114 ∷ 100 ∷ 32 ∷ 118 ∷ 49 ∷ 32 ∷ 122 ∷ 120 ∷ 50 ∷ 99 ∷ 52
    ∷ 32 ∷ 74 ∷ 97 ∷ 115 ∷ 111 ∷ 110 ∷ 64 ∷ 122 ∷ 120 ∷ 50 ∷ 99 ∷ 52 ∷ 46 ∷ 99 ∷ 111 ∷ 109 ∷ []

module _ (c : Crypto) where
  -- x_key is the key, or its hash, with zeros behind it.
  unfoldable pub hmac : (input key : Bytes) → Bytes
  hmac input key =
      let x_key = padded 64 (if ltb 64 (length key) then c.blake2s [] key else key) in
      let inner = map (λ b. xor_bits 8 b 54) x_key in
      let outer = map (λ b. xor_bits 8 b (xor_bits 8 92 54)) inner in
      c.blake2s [] (outer ++ c.blake2s [] (inner ++ input))

  -- The three keys that kdf makes, each of 32 bytes. A caller takes the first ones of them.
  unfoldable pub kdf : (bytes chaining_key : Bytes) → Bytes × Bytes × Bytes
  unfolding hmac
  kdf bytes chaining_key =
      let secret = hmac bytes chaining_key in
      let first = hmac (1 ∷ []) secret in
      let second = hmac (first ++ 2 ∷ []) secret in (first, second, hmac (second ++ 3 ∷ []) secret)

  -- wg_noise_init: handshake_init_chaining_key and handshake_init_hash
  unfoldable pub init_chaining_key : Bytes
  init_chaining_key = c.blake2s [] handshake_name

  unfoldable pub init_hash : Bytes
  unfolding init_chaining_key
  init_hash = c.blake2s [] (init_chaining_key ++ identifier_name)

  abbrev pub mix_hash : (hash src : Bytes) → Bytes
  mix_hash hash src = c.blake2s [] (hash ++ src)

  -- The keys that mix_dh and mix_precomputed_dh derive: the next chaining key, and a key.
  unfoldable pub mix_dh : (chaining_key private public : Bytes) → Option (Bytes × Bytes)
  unfolding kdf
  mix_dh chaining_key private public = elim (c.curve25519 private public) [
    | none ↦ none
    | some dh ↦ some ((kdf dh chaining_key).0, (kdf dh chaining_key).1)
  ]

  unfoldable pub mix_precomputed_dh : (chaining_key precomputed : Bytes) → Option (Bytes × Bytes)
  unfolding kdf
  mix_precomputed_dh chaining_key precomputed =
      if is_zero precomputed
      then none
      else some ((kdf precomputed chaining_key).0, (kdf precomputed chaining_key).1)

  -- The next chaining key and hash, and a key.
  unfoldable pub mix_psk : (chaining_key hash psk : Bytes) → Bytes × Bytes × Bytes
  unfolding kdf
  mix_psk chaining_key hash psk = let k = kdf psk chaining_key in (k.0, mix_hash hash k.1, k.2)

  -- The first chaining key and hash.
  unfoldable pub handshake_init : (remote_static : Bytes) → Bytes × Bytes
  unfolding init_chaining_key init_hash
  handshake_init remote_static = (init_chaining_key, mix_hash init_hash remote_static)

  -- The text, and the hash after it.
  unfoldable pub message_encrypt : (plaintext key hash : Bytes) → Bytes × Bytes
  message_encrypt plaintext key hash =
      let text = c.encrypt plaintext hash key in (text, mix_hash hash text)

  unfoldable pub message_decrypt : (ciphertext key hash : Bytes) → Option (Bytes × Bytes)
  message_decrypt ciphertext key hash = elim (c.decrypt ciphertext hash key) [
    | none ↦ none
    | some plain ↦ some (plain, mix_hash hash ciphertext)
  ]

  -- The chaining key and hash after an ephemeral key.
  unfoldable pub message_ephemeral : (ephemeral chaining_key hash : Bytes) → Bytes × Bytes
  unfolding kdf
  message_ephemeral ephemeral chaining_key hash =
      ((kdf ephemeral chaining_key).0, mix_hash hash ephemeral)

  -- The keys of the session, of which derive_keys makes the first the sender's for the initiator.
  unfoldable pub derive_keys : (chaining_key : Bytes) → Bytes × Bytes
  unfolding kdf
  derive_keys chaining_key = ((kdf [] chaining_key).0, (kdf [] chaining_key).1)

  -- wg_noise_precompute_static_static
  unfoldable pub precompute_static_static : Identity → Handshake → Handshake
  precompute_static_static id h =
      let dh : Bytes = elim (c.curve25519 id.static_private h.remote_static) [
        | none ↦ zeros 32
        | some k ↦ k
      ] in
      record h { precomputed_static_static = if id.has_identity then dh else zeros 32 }

  -- wg_noise_handshake_init. A peer without a preshared key has zeros.
  unfoldable pub new_handshake : Identity → (public : Bytes) → (psk : Option Bytes) → Handshake
  unfolding precompute_static_static
  new_handshake id public psk = precompute_static_static id (record {
    state = zeroed;
    last_initiation_consumption = 0;
    ephemeral_private = zeros 32;
    remote_static = public;
    remote_ephemeral = zeros 32;
    precomputed_static_static = zeros 32;
    preshared_key = elim psk [ none ↦ zeros 32 | some k ↦ k ];
    hash = zeros 32;
    chaining_key = zeros 32;
    latest_timestamp = zeros 12;
    remote_index = 0;
  })

-- handshake_zero
abbrev pub handshake_zero : Handshake → Handshake
handshake_zero h = record h {
  ephemeral_private = zeros 32;
  remote_ephemeral = zeros 32;
  hash = zeros 32;
  chaining_key = zeros 32;
  remote_index = 0;
  state = zeroed;
}
