-- ===== src/Cookie/Tests.antt =====
-- A cookie with toy cryptography: a code is a sum, and an encrypted text has a sum of its key, nonce
-- and data in front.
use wireguard_receive_path.Prelude.{
  ℕ, ◌+◌, ◌==◌, ◌≡◌, true, if◌then◌else◌, Option, none, some, [], ◌∷◌, ◌++◌, Bytes, refl, arith,
}
use wireguard_receive_path.Cookie.{
  Crypto, Checker, Source, valid_mac_with_cookie, precompute_device_keys, precompute_peer_keys,
  cookie_init, renew_secret,
}
use wireguard_receive_path.Cookie.Laws.{IsSound, Draws, exchange, exchange-MacState}

abbrev total : Bytes → ℕ
total [] = 0
total (x ∷ xs) = x + total xs

abbrev opened : (tag : ℕ) → Bytes → Option Bytes
opened tag [] = none
opened tag (x ∷ xs) = if x == tag then some xs else none

abbrev toy : Crypto
toy = record {
  blake2s = λ n key xs. (total key + total xs) ∷ [];
  encrypt = λ plain ad nonce key. total (ad ++ nonce ++ key) ∷ plain;
  decrypt = λ text ad nonce key. opened (total (ad ++ nonce ++ key)) text;
}

toy-IsSound : IsSound toy
toy-IsSound = record { decrypts = λ plain ad nonce key. ground arith }

abbrev draws : Draws
draws = record {
  sent = 1000;
  answered = 2000;
  renewed = 2001;
  received = 3000;
  sent_again = 4000;
  checked = 5000;
  renewed_again = 5001;
  secret = 77 ∷ [];
  other_secret = 78 ∷ [];
  nonce = 5 ∷ [];
}

abbrev source : Source
source = record { address = 10 ∷ 0 ∷ 0 ∷ 7 ∷ []; port = 200 ∷ 1 ∷ [] }

abbrev checker : Checker
checker = record {
  secret = 33 ∷ [];
  secret_birthdate = 0;
  cookie_encryption_key = [];
  message_mac1_key = [];
}

exchange-MacState_example :
    exchange toy draws source
      (1 ∷ [])
      (2 ∷ [])
      3
      true
      (precompute_peer_keys toy (9 ∷ []) (cookie_init toy))
      (precompute_device_keys toy true (9 ∷ []) checker)
    ≡ valid_mac_with_cookie
unfolding renew_secret precompute_device_keys
exchange-MacState_example =
    exchange-MacState toy draws source toy-IsSound (9 ∷ []) (1 ∷ []) (2 ∷ []) 3 true
      (cookie_init toy) checker refl refl
