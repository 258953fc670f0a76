-- ===== src/Noise/Agree.antt =====
-- A whole handshake between two devices, and the keys that both derive.
use wireguard_receive_path.Prelude.{
  ℕ, true, false, ◌≡◌, if◌then◌else◌, Option, none, some, Bytes, is_greater, is_zero, update,
  update_self, refl, sym, ap, ◌∙◌,
}
use wireguard_receive_path.Keypairs.Session.{created_response, consumed_response, is_initiator}
use wireguard_receive_path.Noise.{Crypto, Identity, Handshake, Initiation, Response}
use wireguard_receive_path.Noise.Mix.{derive_keys, precompute_static_static}
use wireguard_receive_path.Noise.Message.{
  Device, create_initiation, is_flood_attack, accept_initiation, consume_initiation,
  create_response, consume_response,
}
use wireguard_receive_path.Noise.Transcript.{
  IsSound, ss_keys, sealed_timestamp, initiated, create_initiation-known,
  consume_initiation-initiation, create_response-response, consume_response-response,
}

-- The sending and the receiving key that wg_noise_handshake_begin_session derives.
unfoldable pub session_keys : Crypto → Handshake → Bytes × Bytes
session_keys c h =
    let k = derive_keys c h.chaining_key in if is_initiator h.state then k else (k.1, k.0)

-- What one device, the initiator, and another draw and read in a handshake.
pub record Draws : Type 0 where
  pub private_i : Bytes
  pub private_r : Bytes
  pub timestamp : Bytes
  pub index_i : ℕ
  pub index_r : ℕ
  pub now : ℕ
  pub later : ℕ

-- The four steps with nothing in between, from the last one on. The initiator's peer `p` is the other
-- device. The result is each one's peer, and the handshake it ends with.
abbrev fourth_step : ℕ → Handshake → Option ℕ × Device → Option (ℕ × Handshake × ℕ × Handshake)
fourth_step q hr (none, i) = none
fourth_step q hr (some p, i) = some (p, i.peers p, q, hr)

abbrev third_step :
    Crypto → Device → (q : ℕ) → Option Response × Handshake → Option (ℕ × Handshake × ℕ × Handshake)
third_step c i q (none, hr) = none
third_step c i q (some m, hr) = fourth_step q hr (consume_response c (λ h. h) m i)

abbrev second_step :
    Crypto → Draws → Device → Option ℕ × Device → Option (ℕ × Handshake × ℕ × Handshake)
second_step c w i (none, r) = none
second_step c w i (some q, r) =
    third_step c i q (create_response c w.private_r w.index_r (r.peers q))

abbrev first_step :
    Crypto
    → Draws
    → (p : ℕ) → (initiator responder : Device) → Option Initiation × Handshake
    → Option (ℕ × Handshake × ℕ × Handshake)
first_step c w p i r (none, hi) = none
first_step c w p i r (some m, hi) =
    second_step c w (record i { peers = update i.peers p hi })
      (consume_initiation c w.now w.later (λ h. h) m r)

unfoldable pub exchange :
    Crypto
    → Draws
    → (p : ℕ) → (initiator responder : Device) → Option (ℕ × Handshake × ℕ × Handshake)
exchange c w p i r =
    first_step c w p i r
      (create_initiation c i.identity w.private_i w.timestamp w.index_i (i.peers p))

-- The two devices know each other: `p` and `q` are each other's peers.
pub record IsReady (c : Crypto) (w : Draws) (p q : ℕ) (i r : Device) : Type 0 where
  pub identity_i : i.identity.has_identity ≡ true
  pub identity_r : r.identity.has_identity ≡ true
  pub static_i :
      c.curve25519_generate_public i.identity.static_private ≡ some i.identity.static_public
  pub static_r :
      c.curve25519_generate_public r.identity.static_private ≡ some r.identity.static_public
  pub remote_i : (i.peers p).remote_static ≡ r.identity.static_public
  pub remote_r : (r.peers q).remote_static ≡ i.identity.static_public
  pub known_r : r.pubkey_lookup i.identity.static_public ≡ some q
  pub known_i : i.index_lookup w.index_i ≡ some p
  pub preshared : (i.peers p).preshared_key ≡ (r.peers q).preshared_key
  pub computed_i :
      (i.peers p).precomputed_static_static
      ≡ (precompute_static_static c i.identity (i.peers p)).precomputed_static_static
  pub computed_r :
      (r.peers q).precomputed_static_static
      ≡ (precompute_static_static c r.identity (r.peers q)).precomputed_static_static
  pub fresh : is_greater w.timestamp (r.peers q).latest_timestamp ≡ true
  pub in_time : is_flood_attack c w.now (r.peers q) ≡ false

-- The public keys that are drawn, and the secrets of the four exchanges, exist.
pub record HasKeys (c : Crypto) (w : Draws) (i r : Device) : Type 0 where
  pub public_i : Bytes
  pub public_r : Bytes
  pub es : Bytes
  pub ee : Bytes
  pub se : Bytes
  pub ss : Bytes
  pub generates_i : c.curve25519_generate_public w.private_i ≡ some public_i
  pub generates_r : c.curve25519_generate_public w.private_r ≡ some public_r
  pub has_es : c.curve25519 w.private_i r.identity.static_public ≡ some es
  pub has_ee : c.curve25519 w.private_r public_i ≡ some ee
  pub has_se : c.curve25519 w.private_r i.identity.static_public ≡ some se
  pub has_ss : c.curve25519 r.identity.static_private i.identity.static_public ≡ some ss

abbrev pub IsAgreed : Crypto → (p q : ℕ) → Option (ℕ × Handshake × ℕ × Handshake) → Type 0
IsAgreed c p q none = ⊥
IsAgreed c p q (some (p', hi, q', hr)) =
    (p' ≡ p)
    × (q' ≡ q)
    × (hi.state ≡ consumed_response)
    × (hr.state ≡ created_response)
    × (hi.hash ≡ hr.hash)
    × ((session_keys c hi).0 ≡ (session_keys c hr).1)
    × ((session_keys c hi).1 ≡ (session_keys c hr).0)

module _ (c : Crypto) (sound : IsSound c) where
  precomputed :
      (id : Identity) (h : Handshake) (remote ss : Bytes)
      → h.precomputed_static_static ≡ (precompute_static_static c id h).precomputed_static_static
      → id.has_identity ≡ true
      → h.remote_static ≡ remote
      → c.curve25519 id.static_private remote ≡ some ss
      → h.precomputed_static_static ≡ ss
  unfolding precompute_static_static
  precomputed id h remote ss computed has same dh =
      computed ∙ simp (has) (rw (ap (λ x. c.curve25519 id.static_private x) same ∙ dh) refl)

  -- Two devices that know each other, of which one starts a handshake, both end it, each with the other
  -- as its peer, with the same hash, and with keys of which each side sends with the one that the other
  -- receives with.
  pub exchange-IsAgreed :
      (w : Draws) (p q : ℕ) (i r : Device)
      → IsReady c w p q i r
      → HasKeys c w i r
      → IsAgreed c p q (exchange c w p i r)
  unfolding exchange session_keys accept_initiation
  exchange-IsAgreed w p q i r ready keys =
      let si = i.identity in
      let ss = (r.peers q).precomputed_static_static in
      let responder = r.identity.static_public in
      let hi =
        initiated c sound w.private_i w.timestamp (i.peers p) responder si.static_public
          keys.public_i keys.es ss in
      let hq =
        accept_initiation c w.later w.index_i
          (
            w.timestamp,
            keys.public_i,
            (ss_keys c responder si.static_public keys.public_i keys.es ss w.timestamp).0,
            (sealed_timestamp c responder si.static_public keys.public_i keys.es ss w.timestamp).1,
          )
          (r.peers q) in
      let pre_i : (i.peers p).precomputed_static_static ≡ keys.ss =
        precomputed si (i.peers p) responder keys.ss ready.computed_i ready.identity_i
          ready.remote_i
          (sym (
              sound.shares r.identity.static_private si.static_private responder si.static_public
                ready.static_r ready.static_i)
            ∙ keys.has_ss) in
      let pre_r : (r.peers q).precomputed_static_static ≡ keys.ss =
        precomputed r.identity (r.peers q) si.static_public keys.ss ready.computed_r
          ready.identity_r ready.remote_r keys.has_ss in
      let non_zero : is_zero (r.peers q).precomputed_static_static ≡ false =
        ap is_zero pre_r
        ∙ sound.is_not_zero r.identity.static_private si.static_public keys.ss keys.has_ss in
      let es' : c.curve25519 r.identity.static_private keys.public_i ≡ some keys.es =
        sym (
          sound.shares w.private_i r.identity.static_private keys.public_i responder
            keys.generates_i ready.static_r)
        ∙ keys.has_es in
      let ee' : c.curve25519 w.private_i keys.public_r ≡ some keys.ee =
        sym (
          sound.shares w.private_r w.private_i keys.public_r keys.public_i keys.generates_r
            keys.generates_i)
        ∙ keys.has_ee in
      let se' : c.curve25519 si.static_private keys.public_r ≡ some keys.se =
        sym (
          sound.shares w.private_r si.static_private keys.public_r si.static_public keys.generates_r
            ready.static_i)
        ∙ keys.has_se in
      rw
        (
          create_initiation-known c sound si w.private_i w.timestamp w.index_i (i.peers p)
              keys.public_i keys.es responder ss ready.remote_i (pre_i ∙ sym pre_r) ready.identity_i
              keys.generates_i keys.has_es non_zero,
          exchange,
        )
        (rw
          (consume_initiation-initiation c sound r q w.index_i w.now w.later si.static_public
            keys.public_i keys.es w.timestamp ready.identity_r es' ready.known_r non_zero
            ready.fresh ready.in_time)
          (rw (update_self r.peers q hq) (
            rw
              (create_response-response c sound w.private_r w.index_r hq keys.public_r keys.ee
                keys.se refl keys.generates_r keys.has_ee
                (ap (λ x. c.curve25519 w.private_r x) ready.remote_r ∙ keys.has_se))
              (rw
                (consume_response-response c sound (record i { peers = update i.peers p hi }) p
                  w.index_r w.index_i keys.public_r keys.ee keys.se hq.preshared_key hi
                  (update_self i.peers p hi) ready.preshared ready.identity_i ready.known_i refl ee'
                  se')
                (simp (update_self) (refl, refl, refl, refl, refl, refl, refl))))))
