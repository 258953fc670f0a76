-- ===== src/Transport/Tests.antt =====
-- A cipher that adds a nonce and a key to the text, and a keypair that is used and then spent.
use wireguard_receive_path.Prelude.{
  ℕ, ◌≡◌, true, some, [], ◌∷◌, ◌++◌, Bytes, length, take, take_front, length-append, refl, arith,
  ap, ◌∙◌,
}
use wireguard_receive_path.Noise.Mix.{zeros}
use wireguard_receive_path.Transport.{
  Aead, Buffers, Received, NoiseKeypair, le_bytes, message_header, padding_len, encrypt_packet,
}
use wireguard_receive_path.Transport.Laws.{
  IsAead, arrive, decrypt_packet-encrypt_packet, Arrival, decrypt_all, AllRefused,
  decrypt_all-AllRefused,
}

-- The text is as it was, and the nonce stands 16 times in the place of the tag.
abbrev tag : ℕ → Bytes
tag nonce = le_bytes 16 nonce

abbrev aead : Aead
aead = record {
  encrypt = λ buffer text_len nonce key. (true, take text_len buffer ++ tag nonce);
  decrypt = λ buffer nonce key. (true, buffer);
}

aead-IsAead : IsAead aead
aead-IsAead text room nonce key sixteen = record {
  encrypts = refl;
  decrypts = refl;
  text_first =
      ap (λ t. take (length text) (t ++ tag nonce)) (take_front text room)
      ∙ take_front text (tag nonce);
  same_length =
      ap (λ t. length (t ++ tag nonce)) (take_front text room) ∙ length-append text (tag nonce);
}

abbrev buffers : Buffers
buffers = record {
  cow_data = some 1;
  cow_head = true;
  checksum_help = λ packet. some packet;
  tailroom = 1 ∷ 2 ∷ 3 ∷ 4 ∷ 5 ∷ 6 ∷ 7 ∷ 8 ∷ 9 ∷ 10 ∷ 11 ∷ 12 ∷ 13 ∷ 14 ∷ 15 ∷ 16 ∷ [];
  to_sgvec = true;
  trim = true;
}

abbrev keypair : NoiseKeypair
keypair = record {
  remote_index = 77;
  sending_key = 1 ∷ [];
  receiving_key = 1 ∷ [];
  receiving_is_valid = true;
  receiving_birthdate = 1000;
  receiving_counter = 3;
}

-- Behind 28 bytes of IP and UDP header
abbrev outer : Bytes
outer = zeros 28

decrypt_packet-encrypt_packet_example :
    arrive aead buffers 2000 keypair outer
      (encrypt_packet aead buffers 1420 9 keypair (69 ∷ 0 ∷ 0 ∷ []))
    ≡ (some (9, (69 ∷ 0 ∷ 0 ∷ []) ++ zeros (padding_len 3 1420)), some keypair)
decrypt_packet-encrypt_packet_example =
    decrypt_packet-encrypt_packet aead buffers buffers 1420 9 2000 keypair keypair outer
      (69 ∷ 0 ∷ 0 ∷ []) (69 ∷ 0 ∷ 0 ∷ []) aead-IsAead (omega arith) refl refl
      (refl, refl, refl, refl, refl, refl) (refl, refl, refl)

abbrev message : Received
message = record { outer = outer; bytes = message_header 77 9 ++ (69 ∷ tag 9) }

-- The first arrives when the keypair is 180 seconds old, the second after it.
abbrev late : Arrival
late = record { now = 180000001000; buffers = buffers; skb = message }

abbrev again : Arrival
again = record { now = 180000002000; buffers = buffers; skb = message }

decrypt_all-AllRefused_example : AllRefused (decrypt_all aead (late ∷ again ∷ []) (some keypair))
decrypt_all-AllRefused_example = decrypt_all-AllRefused aead late (again ∷ []) keypair refl
