-- ===== src/Transport.antt =====
-- The data message: encrypt_packet (linux-source/drivers/net/wireguard/send.c) and decrypt_packet
-- (build/wg515-trigger/receive.c), on the bytes of the socket buffer. ChaCha20Poly1305 and the calls of
-- the socket buffer library are parameters.
pub mod Laws
mod Tests
use wireguard_receive_path.Prelude.{
  ℕ, zero, suc, ◌+◌, ◌-◌, ◌*◌, ◌/◌, ◌%◌, Bool, true, false, not, leb, ◌&&◌, ◌||◌, if◌then◌else◌,
  Option, none, some, List, [], ◌∷◌, ◌++◌, Bytes, length, take, drop,
}
use wireguard_receive_path.Replay.{reject_after_messages}
use wireguard_receive_path.Receive.{birthdate_has_expired, reject_after_time}
use wireguard_receive_path.Receive.Header.{message_data}
use wireguard_receive_path.Noise.Mix.{zeros}
use wireguard_receive_path.Send.{calculate_skb_padding}

-- chacha20poly1305_encrypt_sg_inplace and _decrypt_sg_inplace without associated data: what they answer,
-- and the buffer they leave. The first has the length of the text, which the buffer has room for the tag
-- behind; the second leaves the text and something in the place of the tag.
pub record Aead : Type 0 where
  pub encrypt : (buffer : Bytes) (text_len nonce : ℕ) (key : Bytes) → Bool × Bytes
  pub decrypt : (buffer : Bytes) (nonce : ℕ) (key : Bytes) → Bool × Bytes

-- What the calls of the socket buffer library answer: skb_cow_data the number of fragments, or none where
-- it is negative, and the others whether they succeed. `checksum_help` is the packet with its checksum
-- complete, which is the packet itself where nothing is left to do. `tailroom` is what stands in the
-- place of the tag before it is written.
pub record Buffers : Type 0 where
  pub cow_data : Option ℕ
  pub cow_head : Bool
  pub checksum_help : Bytes → Option Bytes
  pub tailroom : Bytes
  pub to_sgvec : Bool
  pub trim : Bool

-- A socket buffer that was received: the bytes from its network header up to skb->data, and those from
-- there on, which begin with a struct message_data.
pub record Received : Type 0 where
  pub outer : Bytes
  pub bytes : Bytes

-- What the two functions use of struct noise_keypair
pub record NoiseKeypair : Type 0 where
  pub remote_index : ℕ
  pub sending_key : Bytes
  pub receiving_key : Bytes
  pub receiving_is_valid : Bool
  pub receiving_birthdate : ℕ
  pub receiving_counter : ℕ

-- cpu_to_le32 and cpu_to_le64, of `n` bytes, and back
abbrev pub le_bytes : (n value : ℕ) → Bytes
le_bytes zero value = []
le_bytes (suc n) value = value % 256 ∷ le_bytes n (value / 256)

abbrev pub of_le : Bytes → ℕ
of_le [] = 0
of_le (x ∷ xs) = x + 256 * of_le xs

-- sizeof(struct message_data) and noise_encrypted_len(0)
abbrev pub header_len : ℕ
header_len = 16

abbrev pub tag_len : ℕ
tag_len = 16

-- struct message_data: the type, the index, the counter
abbrev pub message_header : (key_idx counter : ℕ) → Bytes
message_header key_idx counter =
    le_bytes 4 message_data ++ (le_bytes 4 key_idx ++ le_bytes 8 counter)

-- num_frags is in bounds: MAX_SKB_FRAGS + 8 entries.
abbrev pub frags_fit : Option ℕ → Bool
frags_fit none = false
frags_fit (some num_frags) = leb num_frags 25

abbrev pub padding_len : (len mtu : ℕ) → ℕ
padding_len len mtu = calculate_skb_padding (record { len = len; mtu = mtu })

-- The buffer once the header is in front, and the padding and the place of the tag are behind.
abbrev pub unencrypted : Buffers → (mtu nonce : ℕ) → NoiseKeypair → (len : ℕ) (body : Bytes) → Bytes
unencrypted m mtu nonce k len body =
    message_header k.remote_index nonce ++ ((body ++ zeros (padding_len len mtu)) ++ m.tailroom)

-- The encryption of what follows the header, over noise_encrypted_len(plaintext_len) bytes.
abbrev pub encrypt_data :
    Aead → (plaintext_len nonce : ℕ) → (key : Bytes) → (buffer : Bytes) → Option Bytes
encrypt_data aead plaintext_len nonce key buffer =
    let (ok, cipher) =
      aead.encrypt (take (plaintext_len + tag_len) (drop header_len buffer)) plaintext_len nonce
        key in
    if ok
    then some (
        take header_len buffer
        ++ (cipher ++ drop (plaintext_len + tag_len) (drop header_len buffer)))
    else none

-- encrypt_packet of a packet with its nonce: the bytes of the buffer. `none` is that it answers false.
unfoldable pub encrypt_packet :
    Aead → Buffers → (mtu nonce : ℕ) → NoiseKeypair → (packet : Bytes) → Option Bytes
encrypt_packet aead m mtu nonce k packet =
    let plaintext_len = length packet + padding_len (length packet) mtu in
    if frags_fit m.cow_data && m.cow_head
    then elim (m.checksum_help packet) [
      | none ↦ none
      | some body ↦
          if m.to_sgvec
          then encrypt_data aead plaintext_len nonce k.sending_key
              (unencrypted m mtu nonce k (length packet) body)
          else none
    ]
    else none

-- The keypair is not to be used any more.
abbrev pub is_spent : (now : ℕ) → NoiseKeypair → Bool
is_spent now k =
    not k.receiving_is_valid
    || birthdate_has_expired now k.receiving_birthdate reject_after_time
    || leb reject_after_messages k.receiving_counter

-- le64_to_cpu(((struct message_data *)skb->data)->counter)
abbrev pub nonce_of : Bytes → ℕ
nonce_of bytes = of_le (take 8 (drop 8 bytes))

-- From the decrypted buffer on: the bytes before it are pushed back, the tag is trimmed off the end, and
-- they are pulled again.
abbrev pub without_tag : (before text : Bytes) → Bytes
without_tag before text =
    let whole = before ++ text in drop (length before) (take (length whole - tag_len) whole)

-- PACKET_CB(skb)->nonce and the bytes of the buffer, where the rest of decrypt_packet answers true. The
-- buffer is pushed to its network header, and pulled to what follows the struct message_data.
abbrev pub decrypt_data : Aead → Buffers → NoiseKeypair → Received → Option (ℕ × Bytes)
decrypt_data aead m k skb =
    let pushed = skb.outer ++ skb.bytes in
    let offset = length skb.outer + header_len in
    let (ok, text) = aead.decrypt (drop offset pushed) (nonce_of skb.bytes) k.receiving_key in
    if frags_fit m.cow_data && m.to_sgvec && ok && m.trim
    then some (nonce_of skb.bytes, without_tag (take offset pushed) text)
    else none

-- decrypt_packet at the time `now`. The keypair is none where the packet has none.
unfoldable pub decrypt_packet :
    Aead
    → Buffers
    → (now : ℕ) → Option NoiseKeypair
    → Received
    → Option (ℕ × Bytes) × Option NoiseKeypair
decrypt_packet aead m now none skb = (none, none)
decrypt_packet aead m now (some k) skb =
    if is_spent now k
    then (none, some (record k { receiving_is_valid = false }))
    else (decrypt_data aead m k skb, some k)
