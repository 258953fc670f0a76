-- ===== src/Noise/Tests.antt =====
-- A handshake of two devices with toy cryptography: a key is its own public key, a shared secret is a
-- sum, and an encrypted text has a sum of its key and data in front.
use wireguard_receive_path.Prelude.{
  ℕ, ◌+◌, ◌==◌, ◌≡◌, true, false, if◌then◌else◌, Option, none, some, [], ◌∷◌, ◌++◌, Bytes, is_zero,
  refl, arith, ap, is_greater, is_greater_self, subst,
}
use wireguard_receive_path.Keypairs.Session.{zeroed}
use wireguard_receive_path.Noise.{Crypto, Handshake}
use wireguard_receive_path.Noise.Mix.{precompute_static_static}
use wireguard_receive_path.Noise.Message.{Device}
use wireguard_receive_path.Noise.Transcript.{IsSound, initiation, consume_initiation-initiation}
use wireguard_receive_path.Noise.Agree.{
  Draws, IsReady, HasKeys, IsAgreed, exchange, exchange-IsAgreed,
}
use wireguard_receive_path.Noise.Once.{Consumption, consume, consume_all, consume_initiation-once}

abbrev total : Bytes → ℕ
total [] = 0
total (x ∷ xs) = x + total xs

abbrev opened : (tag : ℕ) → Bytes → Option Bytes
opened tag [] = none
opened tag (x ∷ xs) = if x == tag then some xs else none

abbrev toy : Crypto
toy = record {
  blake2s = λ key xs. total (key ++ xs) ∷ [];
  curve25519 = λ a b. some ((1 + total a + total b) ∷ []);
  curve25519_generate_public = λ a. some a;
  encrypt = λ plain ad key. total (ad ++ key) ∷ plain;
  decrypt = λ text ad key. opened (total (ad ++ key)) text;
}

abbrev or_this : Bytes → Option Bytes → Bytes
or_this a none = a
or_this a (some x) = x

same_public : (a b : Bytes) → some a ≡ some b → a ≡ b
same_public a b h = ap (or_this a) h

toy_shares :
    (a b pa pb : Bytes)
    → some a ≡ some pa
    → some b ≡ some pb
    → some ((1 + total a + total pb) ∷ []) ≡ some ((1 + total b + total pa) ∷ [])
toy_shares a b pa pb ha hb =
    rw (← same_public a pa ha) (rw (← same_public b pb hb) (ap (λ n. some (n ∷ [])) (omega arith)))

toy-IsSound : IsSound toy
toy-IsSound = record {
  decrypts = λ plain ad key. ground arith;
  shares = λ a b pa pb ha hb. toy_shares a b pa pb ha hb;
  is_not_zero = λ a b k h.
      subst (λ x. is_zero x ≡ false) (same_public ((1 + total a + total b) ∷ []) k h)
        (ground arith);
}

abbrev known : (remote : Bytes) → Handshake
known remote = record {
  state = zeroed;
  last_initiation_consumption = 0;
  ephemeral_private = [];
  remote_static = remote;
  remote_ephemeral = [];
  precomputed_static_static = 6 ∷ [];
  preshared_key = 9 ∷ [];
  hash = [];
  chaining_key = [];
  latest_timestamp = 0 ∷ [];
  remote_index = 0;
}

abbrev device : (key remote : Bytes) → Device
device key remote = record {
  identity = record { has_identity = true; static_public = key; static_private = key };
  pubkey_lookup = λ k. some 0;
  index_lookup = λ i. some 0;
  peers = λ p. known remote;
}

abbrev draws : Draws
draws = record {
  private_i = 4 ∷ [];
  private_r = 5 ∷ [];
  timestamp = 7 ∷ [];
  index_i = 11;
  index_r = 12;
  now = 30000000;
  later = 30000001;
}

ready : IsReady toy draws 0 0 (device (2 ∷ []) (3 ∷ [])) (device (3 ∷ []) (2 ∷ []))
unfolding precompute_static_static is_greater
ready = record {
  identity_i = refl;
  identity_r = refl;
  static_i = refl;
  static_r = refl;
  remote_i = refl;
  remote_r = refl;
  known_r = refl;
  known_i = refl;
  preshared = refl;
  computed_i = refl;
  computed_r = refl;
  fresh = refl;
  in_time = refl;
}

keys : HasKeys toy draws (device (2 ∷ []) (3 ∷ [])) (device (3 ∷ []) (2 ∷ []))
keys = record {
  public_i = 4 ∷ [];
  public_r = 5 ∷ [];
  es = 8 ∷ [];
  ee = 10 ∷ [];
  se = 8 ∷ [];
  ss = 6 ∷ [];
  generates_i = refl;
  generates_r = refl;
  has_es = refl;
  has_ee = refl;
  has_se = refl;
  has_ss = refl;
}

exchange-IsAgreed_example :
    IsAgreed toy 0 0 (exchange toy draws 0 (device (2 ∷ []) (3 ∷ [])) (device (3 ∷ []) (2 ∷ [])))
exchange-IsAgreed_example =
    exchange-IsAgreed toy toy-IsSound draws 0 0 (device (2 ∷ []) (3 ∷ []))
      (device (3 ∷ []) (2 ∷ [])) ready keys

abbrev first : Consumption
first = record {
  src = initiation toy (3 ∷ []) (2 ∷ []) (4 ∷ []) (8 ∷ []) (6 ∷ []) (7 ∷ []) 11;
  now = 30000000;
  later = 30000001;
  meanwhile = λ h. h;
  keeps_static = λ h. refl;
  keeps_order = λ h. is_greater_self h.latest_timestamp;
}

abbrev again : Consumption
again = record first { now = 90000000; later = 90000001 }

abbrev responder : Device
responder = device (3 ∷ []) (2 ∷ [])

accepted : (consume toy first responder).0 ≡ some 0
unfolding is_greater
accepted =
    ap (λ r. r.0)
      (consume_initiation-initiation toy toy-IsSound responder 0 11 30000000 30000001 (2 ∷ [])
        (4 ∷ []) (8 ∷ []) (7 ∷ []) refl refl refl refl refl refl)

consume_initiation-once_example :
    let d' = consume_all toy (first ∷ []) (consume toy first responder).1 in
    consume toy again d' ≡ (none, d')
consume_initiation-once_example =
    consume_initiation-once toy first responder 0 (first ∷ []) again accepted refl
