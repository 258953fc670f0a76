-- ===== src/Transport/Laws.antt =====
-- What decrypt_packet makes of a message of encrypt_packet, and of messages after a keypair is spent.
use wireguard_receive_path.Prelude.{
  ℕ, zero, suc, ◌+◌, ◌-◌, ◌*◌, ◌/◌, ◌^◌, ◌<◌, ◌≡◌, true, false, Option, none, some, List, [], ◌∷◌,
  ◌++◌, Bytes, length, take, drop, append_nil, take-append, drop-append, drop_front, take-length,
  drop-length, length-append, refl, ap, ◌∙◌, arith,
}
use wireguard_receive_path.Noise.Mix.{zeros}
use wireguard_receive_path.Transport.{
  Aead, Buffers, Received, NoiseKeypair, le_bytes, of_le, header_len, message_header, frags_fit,
  padding_len, unencrypted, encrypt_data, encrypt_packet, is_spent, nonce_of, without_tag,
  decrypt_packet,
}

-- A number below this has `n` bytes.
abbrev bytes_bound : ℕ → ℕ
bytes_bound zero = 1
bytes_bound (suc n) = 256 * bytes_bound n

of_le-le_bytes : (n v : ℕ) → v < bytes_bound n → of_le (le_bytes n v) ≡ v
of_le-le_bytes zero v h = omega (arith, h)
of_le-le_bytes (suc n) v h = omega (arith, h, of_le-le_bytes n (v / 256) (omega (arith, h)))

length-zeros : (n : ℕ) → length (zeros n) ≡ n
length-zeros zero = refl
length-zeros (suc n) = ap (λ x. suc x) (length-zeros n)

nonce_of-message_header :
    (key_idx nonce : ℕ) (text : Bytes)
    → nonce < 2 ^ 64
    → nonce_of (message_header key_idx nonce ++ text) ≡ nonce
nonce_of-message_header key_idx nonce text h = of_le-le_bytes 8 nonce h

-- The documented behaviour of ChaCha20Poly1305 on a buffer of a text and room for its tag: encryption
-- succeeds and keeps the length, and decryption with the same nonce and key succeeds, keeps the length,
-- and has the text in front.
pub record IsUndone (aead : Aead) (text room : Bytes) (nonce : ℕ) (key : Bytes) : Type 0 where
  pub encrypts : (aead.encrypt (text ++ room) (length text) nonce key).0 ≡ true
  pub decrypts :
      (aead.decrypt (aead.encrypt (text ++ room) (length text) nonce key).1 nonce key).0 ≡ true
  pub text_first :
      take
        (length text)
        (aead.decrypt (aead.encrypt (text ++ room) (length text) nonce key).1 nonce key).1
      ≡ text
  pub same_length :
      length (aead.decrypt (aead.encrypt (text ++ room) (length text) nonce key).1 nonce key).1
      ≡ length text + 16

abbrev pub IsAead : Aead → Type 0
IsAead aead =
    (text room : Bytes) (nonce : ℕ) (key : Bytes)
    → length room ≡ 16
    → IsUndone aead text room nonce key

-- The buffer of encrypt_packet, if it answers true, comes in behind the `outer` headers.
abbrev pub arrive :
    Aead
    → Buffers
    → (now : ℕ) → NoiseKeypair
    → (outer : Bytes) → Option Bytes
    → Option (ℕ × Bytes) × Option NoiseKeypair
arrive aead m now k outer none = (none, some k)
arrive aead m now k outer (some bytes) =
    decrypt_packet aead m now (some k) (record { outer = outer; bytes = bytes })

-- The calls of the socket buffer library succeed: `body` is the packet with its checksum, and the room
-- for the tag is as long as the tag.
abbrev pub IsSent : Buffers → (packet body : Bytes) → Type 0
IsSent m packet body =
    (frags_fit m.cow_data ≡ true)
    × (m.cow_head ≡ true)
    × (m.checksum_help packet ≡ some body)
    × (length body ≡ length packet)
    × (length m.tailroom ≡ 16)
    × (m.to_sgvec ≡ true)

abbrev pub IsTaken : Buffers → Type 0
IsTaken m = (frags_fit m.cow_data ≡ true) × (m.to_sgvec ≡ true) × (m.trim ≡ true)

-- The text and the room for its tag are all that follows the header.
encrypt_data-whole :
    (aead : Aead) (key_idx nonce nonce' : ℕ) (key text room : Bytes)
    → length room ≡ 16
    → (aead.encrypt (text ++ room) (length text) nonce key).0 ≡ true
    → encrypt_data aead (length text) nonce key (message_header key_idx nonce' ++ (text ++ room))
      ≡ some
          (message_header key_idx nonce' ++ (aead.encrypt (text ++ room) (length text) nonce key).1)
encrypt_data-whole aead key_idx nonce nonce' key text room sixteen ok =
    let all : length text + 16 ≡ length (text ++ room) =
      omega (arith, length-append text room, sixteen) in
    rw (all, take-length (text ++ room), drop-length (text ++ room))
      (rw (ok) (ap (λ l. some (message_header key_idx nonce' ++ l)) (append_nil _)))

encrypt_packet-data :
    (aead : Aead) (m : Buffers) (mtu nonce : ℕ) (k : NoiseKeypair) (packet body : Bytes)
    → frags_fit m.cow_data ≡ true
    → m.cow_head ≡ true
    → m.checksum_help packet ≡ some body
    → m.to_sgvec ≡ true
    → encrypt_packet aead m mtu nonce k packet
      ≡ encrypt_data aead
          (length packet + padding_len (length packet) mtu)
          nonce
          k.sending_key
          (unencrypted m mtu nonce k (length packet) body)
unfolding encrypt_packet
encrypt_packet-data aead m mtu nonce k packet body frags head help sg =
    rw (frags, head, help, encrypt_packet) (rw (sg) refl)

without_tag-text :
    (before text decrypted : Bytes)
    → take (length text) decrypted ≡ text
    → length decrypted ≡ length text + 16
    → without_tag before decrypted ≡ text
without_tag-text before text decrypted first len =
    let cut : length (before ++ decrypted) - 16 ≡ length before + length text =
      omega (arith, length-append before decrypted, len) in
    ap (λ n. drop (length before) (take n (before ++ decrypted))) cut
    ∙ ap (drop (length before)) (take-append before decrypted (length text))
    ∙ drop_front before (take (length text) decrypted)
    ∙ first

decrypt_packet-taken :
    (aead : Aead) (m : Buffers) (now : ℕ) (k : NoiseKeypair) (outer text cipher : Bytes)
    (key_idx nonce : ℕ)
    → IsTaken m
    → is_spent now k ≡ false
    → nonce < 2 ^ 64
    → (aead.decrypt cipher nonce k.receiving_key).0 ≡ true
    → take (length text) (aead.decrypt cipher nonce k.receiving_key).1 ≡ text
    → length (aead.decrypt cipher nonce k.receiving_key).1 ≡ length text + 16
    → decrypt_packet aead m now
        (some k)
        (record { outer = outer; bytes = message_header key_idx nonce ++ cipher })
      ≡ (some (nonce, text), some k)
unfolding decrypt_packet
decrypt_packet-taken aead m now k outer text cipher key_idx nonce (frags, sg, trim) fresh small ok
      front len =
    rw (fresh) (
      rw
        (
          nonce_of-message_header key_idx nonce cipher small,
          drop-append outer (message_header key_idx nonce ++ cipher) 16,
        )
        (rw (frags, sg, ok, trim)
          (ap (λ t. (some (nonce, t), some k))
            (without_tag-text
              (take (length outer + header_len) (outer ++ (message_header key_idx nonce ++ cipher)))
              text _ front len))))

-- Take a cipher with the documented behaviour, in place. A packet that encrypt_packet encrypts with a
-- 64-bit nonce, and whose buffer comes in behind any outer headers, is what decrypt_packet leaves in the
-- buffer, with its padding and without header and tag, and the nonce is the one it was encrypted with,
-- and the receiver's keypair does not change: if the receiving key is the sender's sending key, the
-- keypair is not spent, and the calls of the socket buffer library succeed on both sides.
pub decrypt_packet-encrypt_packet :
    (aead : Aead) (sender receiver : Buffers) (mtu nonce now : ℕ) (k k' : NoiseKeypair)
    (outer packet body : Bytes)
    → IsAead aead
    → nonce < 2 ^ 64
    → k.sending_key ≡ k'.receiving_key
    → is_spent now k' ≡ false
    → IsSent sender packet body
    → IsTaken receiver
    → arrive aead receiver now k' outer (encrypt_packet aead sender mtu nonce k packet)
      ≡ (some (nonce, body ++ zeros (padding_len (length packet) mtu)), some k')
decrypt_packet-encrypt_packet aead sender receiver mtu nonce now k k' outer packet body cipher small
      same fresh (frags, head, help, kept, room, sg) taken =
    ap (arrive aead receiver now k' outer) sent
    ∙ decrypt_packet-taken aead receiver now k' outer text _ k.remote_index nonce taken fresh small
        (rw (← same) u.decrypts) (rw (← same) u.text_first) (rw (← same) u.same_length)
  where
    text : Bytes
    text = body ++ zeros (padding_len (length packet) mtu)

    u : IsUndone aead text sender.tailroom nonce k.sending_key
    u = cipher text sender.tailroom nonce k.sending_key room

    text_len : length packet + padding_len (length packet) mtu ≡ length text
    text_len = omega (
      arith,
      kept,
      length-append body (zeros (padding_len (length packet) mtu)),
      length-zeros (padding_len (length packet) mtu),
    )

    sent :
        encrypt_packet aead sender mtu nonce k packet
        ≡ some (
            message_header k.remote_index nonce
            ++ (aead.encrypt (text ++ sender.tailroom) (length text) nonce k.sending_key).1)
    sent =
        encrypt_packet-data aead sender mtu nonce k packet body frags head help sg
        ∙ ap
            (λ n.
              encrypt_data aead n nonce k.sending_key
                (unencrypted sender mtu nonce k (length packet) body))
            text_len
        ∙ encrypt_data-whole aead k.remote_index nonce nonce k.sending_key text sender.tailroom room
            u.encrypts

-- Messages that arrive one after another, each at its time
pub record Arrival : Type 0 where
  pub now : ℕ
  pub buffers : Buffers
  pub skb : Received

unfoldable pub decrypt_all : Aead → List Arrival → Option NoiseKeypair → List (Option (ℕ × Bytes))
decrypt_all aead [] k = []
decrypt_all aead (x ∷ xs) k =
    let r = decrypt_packet aead x.buffers x.now k x.skb in
    let rest = decrypt_all aead xs r.1 in r.0 ∷ rest

abbrev pub AllRefused : List (Option (ℕ × Bytes)) → Type 0
AllRefused [] = Unit
AllRefused (x ∷ xs) = (x ≡ none) × AllRefused xs

decrypt_packet-spent :
    (aead : Aead) (m : Buffers) (now : ℕ) (k : NoiseKeypair) (skb : Received)
    → is_spent now k ≡ true
    → decrypt_packet aead m now (some k) skb
      ≡ (none, some (record k { receiving_is_valid = false }))
unfolding decrypt_packet
decrypt_packet-spent aead m now k skb h = rw (h) refl

invalid-refused :
    (aead : Aead) (xs : List Arrival) (k : NoiseKeypair)
    → k.receiving_is_valid ≡ false
    → AllRefused (decrypt_all aead xs (some k))
unfolding decrypt_all
invalid-refused aead [] k h = tt
invalid-refused aead (x ∷ xs) k h =
    let spent : is_spent x.now k ≡ true = simp (h) refl in
    let eq = decrypt_packet-spent aead x.buffers x.now k x.skb spent in
    rw (eq) (refl, invalid-refused aead xs (record k { receiving_is_valid = false }) refl)

-- When decrypt_packet finds a keypair spent (not valid, expired, or with its counter used up), it refuses
-- that message and every message after it for that keypair, at whatever times they arrive, while nothing else sets
-- the keypair.
pub decrypt_all-AllRefused :
    (aead : Aead) (x : Arrival) (xs : List Arrival) (k : NoiseKeypair)
    → is_spent x.now k ≡ true
    → AllRefused (decrypt_all aead (x ∷ xs) (some k))
unfolding decrypt_all
decrypt_all-AllRefused aead x xs k spent =
    rw (decrypt_packet-spent aead x.buffers x.now k x.skb spent)
      (refl, invalid-refused aead xs (record k { receiving_is_valid = false }) refl)
