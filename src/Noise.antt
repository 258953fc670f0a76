-- ===== src/Noise.antt =====
-- The Noise_IKpsk2 handshake of linux-source/drivers/net/wireguard/noise.c: the key schedule, and what
-- each of the four steps does to the handshake of a peer. Curve25519, BLAKE2s and ChaCha20Poly1305 are
-- parameters.
pub mod Mix
pub mod Message
pub mod Transcript
pub mod Agree
pub mod Once
mod Tests
use wireguard_receive_path.Prelude.{
  ℕ, ◌+◌, Bool, true, false, Option, none, some, List, [], ◌∷◌, ◌++◌, Bytes,
}
use wireguard_receive_path.Keypairs.Session.{HandshakeState}

-- The functions of the kernel's crypto library that the handshake calls. A function that can fail
-- answers `none`.
pub record Crypto : Type 0 where
  -- blake2s with a key, or without one where the key is empty, and 32 bytes of output
  pub blake2s : Bytes → Bytes → Bytes
  -- curve25519 with a private and a public key
  pub curve25519 : Bytes → Bytes → Option Bytes
  pub curve25519_generate_public : Bytes → Option Bytes
  -- chacha20poly1305_encrypt and _decrypt with nonce 0: text, associated data, key
  pub encrypt : Bytes → Bytes → Bytes → Bytes
  pub decrypt : Bytes → Bytes → Bytes → Option Bytes

-- struct noise_static_identity
pub record Identity : Type 0 where
  pub has_identity : Bool
  pub static_public : Bytes
  pub static_private : Bytes

-- struct noise_handshake without its entry in the index hashtable and its lock
pub record Handshake : Type 0 where
  pub state : HandshakeState
  pub last_initiation_consumption : ℕ
  pub ephemeral_private : Bytes
  pub remote_static : Bytes
  pub remote_ephemeral : Bytes
  pub precomputed_static_static : Bytes
  pub preshared_key : Bytes
  pub hash : Bytes
  pub chaining_key : Bytes
  pub latest_timestamp : Bytes
  pub remote_index : ℕ

-- struct message_handshake_initiation and message_handshake_response, without type and macs
pub record Initiation : Type 0 where
  pub sender_index : ℕ
  pub unencrypted_ephemeral : Bytes
  pub encrypted_static : Bytes
  pub encrypted_timestamp : Bytes

pub record Response : Type 0 where
  pub sender_index : ℕ
  pub receiver_index : ℕ
  pub unencrypted_ephemeral : Bytes
  pub encrypted_nothing : Bytes
