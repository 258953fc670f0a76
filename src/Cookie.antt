-- ===== src/Cookie.antt =====
-- The two message authentication codes of a handshake message, and the cookie that a device under load
-- answers with (linux-source/drivers/net/wireguard/cookie.c). BLAKE2s and XChaCha20Poly1305 are
-- parameters.
pub mod Laws
mod Tests
use wireguard_receive_path.Prelude.{
  ℕ, ◌+◌, ◌*◌, Bool, true, false, not, leb, ◌&&◌, if◌then◌else◌, Option, none, some, List, [], ◌∷◌,
  ◌++◌, Bytes, same_bytes, signed, u64, ◌-◌, update,
}

-- The functions of the kernel's crypto library that cookies need.
pub record Crypto : Type 0 where
  -- blake2s with this length of output and a key, or none where the key is empty
  pub blake2s : (length : ℕ) → (key input : Bytes) → Bytes
  -- xchacha20poly1305_encrypt and _decrypt: text, associated data, nonce, key
  pub encrypt : Bytes → Bytes → Bytes → Bytes → Bytes
  pub decrypt : Bytes → Bytes → Bytes → Bytes → Option Bytes

-- struct cookie_checker, of a device
pub record Checker : Type 0 where
  pub secret : Bytes
  pub secret_birthdate : ℕ
  pub cookie_encryption_key : Bytes
  pub message_mac1_key : Bytes

-- struct cookie, of a peer
pub record Cookie : Type 0 where
  pub birthdate : ℕ
  pub is_valid : Bool
  pub cookie : Bytes
  pub have_sent_mac1 : Bool
  pub last_mac1_sent : Bytes
  pub cookie_decryption_key : Bytes
  pub message_mac1_key : Bytes

-- A handshake message: what stands before its struct message_macs, and the two codes.
pub record Message : Type 0 where
  pub body : Bytes
  pub mac1 : Bytes
  pub mac2 : Bytes

-- Where a packet comes from: the address of its IP header, if it has one, and the port, as bytes.
pub record Source : Type 0 where
  pub address : Bytes
  pub port : Bytes

-- struct message_handshake_cookie
pub record Reply : Type 0 where
  pub receiver_index : ℕ
  pub nonce : Bytes
  pub encrypted_cookie : Bytes

-- enum cookie_mac_state
pub data MacState : Type 0 where
  invalid_mac valid_mac_but_no_cookie valid_mac_with_cookie_but_ratelimited valid_mac_with_cookie :
      MacState

-- COOKIE_SECRET_MAX_AGE and COOKIE_SECRET_LATENCY, in seconds
abbrev pub secret_max_age : ℕ
secret_max_age = 120

abbrev pub secret_latency : ℕ
secret_latency = 5

-- wg_birthdate_has_expired at the time `now`
abbrev pub birthdate_has_expired : (now birthdate seconds : ℕ) → Bool
birthdate_has_expired now birthdate seconds =
    leb (signed (u64 (birthdate + seconds * 1000000000))) (signed now)

-- mac1_key_label and cookie_key_label: "mac1----" and "cookie--"
abbrev pub mac1_key_label : Bytes
mac1_key_label = 109 ∷ 97 ∷ 99 ∷ 49 ∷ 45 ∷ 45 ∷ 45 ∷ 45 ∷ []

abbrev pub cookie_key_label : Bytes
cookie_key_label = 99 ∷ 111 ∷ 111 ∷ 107 ∷ 105 ∷ 101 ∷ 45 ∷ 45 ∷ []

abbrev pub zeros16 : Bytes
zeros16 = 0 ∷ 0 ∷ 0 ∷ 0 ∷ 0 ∷ 0 ∷ 0 ∷ 0 ∷ 0 ∷ 0 ∷ 0 ∷ 0 ∷ 0 ∷ 0 ∷ 0 ∷ 0 ∷ []

abbrev pub zeros32 : Bytes
zeros32 = zeros16 ++ zeros16

module _ (c : Crypto) where
  -- wg_cookie_checker_init. What is not written is what the allocation left.
  unfoldable pub checker_init : (now : ℕ) (random : Bytes) → Checker → Checker
  checker_init now random s = record s { secret = random; secret_birthdate = now }

  unfoldable pub precompute_key : (pubkey label : Bytes) → Bytes
  precompute_key pubkey label = c.blake2s 32 [] (label ++ pubkey)

  -- wg_cookie_checker_precompute_device_keys
  unfoldable pub precompute_device_keys :
      (has_identity : Bool) (static_public : Bytes) → Checker → Checker
  precompute_device_keys has_identity static_public s = record s {
    cookie_encryption_key =
        if has_identity then precompute_key static_public cookie_key_label else zeros32;
    message_mac1_key =
        if has_identity then precompute_key static_public mac1_key_label else zeros32;
  }

  -- wg_cookie_checker_precompute_peer_keys
  unfoldable pub precompute_peer_keys : (remote_static : Bytes) → Cookie → Cookie
  precompute_peer_keys remote_static k = record k {
    cookie_decryption_key = precompute_key remote_static cookie_key_label;
    message_mac1_key = precompute_key remote_static mac1_key_label;
  }

  -- wg_cookie_init
  unfoldable pub cookie_init : Cookie
  cookie_init = record {
    birthdate = 0;
    is_valid = false;
    cookie = zeros16;
    have_sent_mac1 = false;
    last_mac1_sent = zeros16;
    cookie_decryption_key = zeros32;
    message_mac1_key = zeros32;
  }

  -- The codes cover what stands before them.
  unfoldable pub compute_mac1 : Message → (key : Bytes) → Bytes
  compute_mac1 m key = c.blake2s 16 key m.body

  unfoldable pub compute_mac2 : Message → (cookie : Bytes) → Bytes
  compute_mac2 m cookie = c.blake2s 16 cookie (m.body ++ m.mac1)

  -- The secret is drawn again, as `random`, if it is too old at `now`; `later` is its birthdate then.
  unfoldable pub renew_secret : (now later : ℕ) (random : Bytes) → Checker → Checker
  renew_secret now later random s =
      if birthdate_has_expired now s.secret_birthdate secret_max_age
      then record s { secret = random; secret_birthdate = later }
      else s

  unfoldable pub make_cookie : (now later : ℕ) (random : Bytes) → Source → Checker → Bytes × Checker
  unfolding renew_secret
  make_cookie now later random src s =
      let s' = renew_secret now later random s in
      (c.blake2s 16 s'.secret (src.address ++ src.port), s')

  -- wg_cookie_validate_packet; `allowed` is what wg_ratelimiter_allow answers.
  unfoldable pub validate_packet :
      (now later : ℕ) (random : Bytes) (allowed check_cookie : Bool)
      → Source
      → Message
      → Checker
      → MacState × Checker
  unfolding make_cookie
  validate_packet now later random allowed check_cookie src m s =
      let made = make_cookie now later random src s in
      if not (same_bytes (compute_mac1 m s.message_mac1_key) m.mac1)
      then (invalid_mac, s)
      else if not check_cookie
      then (valid_mac_but_no_cookie, s)
      else if not (same_bytes (compute_mac2 m made.0) m.mac2)
      then (valid_mac_but_no_cookie, made.1)
      else if not allowed
      then (valid_mac_with_cookie_but_ratelimited, made.1)
      else (valid_mac_with_cookie, made.1)

  -- wg_cookie_add_mac_to_packet
  unfoldable pub add_mac_to_packet : (now : ℕ) → (body : Bytes) → Cookie → Message × Cookie
  add_mac_to_packet now body k =
      let mac1 = compute_mac1 (record { body = body; mac1 = []; mac2 = [] }) k.message_mac1_key in
      let m : Message = record { body = body; mac1 = mac1; mac2 = zeros16 } in
      let use_cookie =
        k.is_valid
        && not (birthdate_has_expired now k.birthdate (secret_max_age - secret_latency)) in
      (
        record m { mac2 = if use_cookie then compute_mac2 m k.cookie else zeros16 },
        record k { last_mac1_sent = mac1; have_sent_mac1 = true },
      )

  -- wg_cookie_message_create, with the nonce that is drawn
  unfoldable pub message_create :
      (now later : ℕ) (random nonce : Bytes) (index : ℕ)
      → Source
      → Message
      → Checker
      → Reply × Checker
  message_create now later random nonce index src m s =
      let made = make_cookie now later random src s in
      (
        record {
          receiver_index = index;
          nonce = nonce;
          encrypted_cookie = c.encrypt made.0 m.mac1 nonce s.cookie_encryption_key;
        },
        made.1,
      )

  -- wg_cookie_message_consume, on the cookie of the peer that the index belongs to
  unfoldable pub message_consume : (now : ℕ) → Reply → Cookie → Cookie
  message_consume now r k =
      let plain = c.decrypt r.encrypted_cookie k.last_mac1_sent r.nonce k.cookie_decryption_key in
      if not k.have_sent_mac1 then k else elim plain [
        | none ↦ k
        | some x ↦ record k { cookie = x; birthdate = now; is_valid = true; have_sent_mac1 = false }
      ]

  -- The whole of it: the index is looked up in the hashtable.
  unfoldable pub consume_at : (lookup : ℕ → Option ℕ) (now : ℕ) → Reply → (ℕ → Cookie) → ℕ → Cookie
  consume_at lookup now r peers = elim (lookup r.receiver_index) [
    | none ↦ peers
    | some p ↦ update peers p (message_consume now r (peers p))
  ]
