-- ===== src/Receive/Header.antt =====
-- prepare_skb_header and validate_header_len: what a datagram must look like to be received.
use wireguard_receive_path.Prelude.{
  ℕ, ◌+◌, ◌-◌, ◌≤◌, ◌<◌, ◌≡◌, ◌^◌, Bool, false, ltb, leb, ◌==◌, ◌&&◌, ◌||◌, not, if◌then◌else◌,
  Option, none, some, sub64, arith, min, Bool-cases, ◌⊎◌, inl, inr,
}

-- sizeof the messages of messages.h
abbrev pub header_size : ℕ
header_size = 4

abbrev pub data_header_size : ℕ
data_header_size = 16

abbrev pub minimum_size : ℕ
minimum_size = 32

abbrev pub initiation_size : ℕ
initiation_size = 148

abbrev pub response_size : ℕ
response_size = 92

abbrev pub cookie_size : ℕ
cookie_size = 64

abbrev pub udp_header : ℕ
udp_header = 8

-- enum message_type
abbrev pub message_initiation : ℕ
message_initiation = 1

abbrev pub message_response : ℕ
message_response = 2

abbrev pub message_cookie : ℕ
message_cookie = 3

abbrev pub message_data : ℕ
message_data = 4

-- A struct sk_buff: addresses of its memory (`data_start` is its `data`), the length from there on, and the two fields of the
-- datagram that are read: the 32-bit type at an address, and the UDP length. `pulls` says whether the
-- kernel can make that many bytes linear, `trims` whether it can cut the buffer.
pub record Skb : Type 0 where
  pub head : ℕ
  pub data_start : ℕ
  pub len : ℕ
  pub tail_pointer : ℕ
  pub transport_header : ℕ
  pub protocol_ok : Bool
  pub type_at : ℕ → ℕ
  pub udp_len : ℕ
  pub pulls : ℕ → Bool
  pub trims : Bool

unfoldable pub validate_header_len : Skb → ℕ
validate_header_len skb =
    let type = skb.type_at skb.data_start in
    if ltb skb.len header_size
    then 0
    else if (type == message_data) && leb minimum_size skb.len
    then data_header_size
    else if (type == message_initiation) && (skb.len == initiation_size)
    then initiation_size
    else if (type == message_response) && (skb.len == response_size)
    then response_size
    else if (type == message_cookie) && (skb.len == cookie_size)
    then cookie_size
    else 0

-- wg_check_packet_protocol and the place of the UDP header.
abbrev pub is_bogus : Skb → Bool
is_bogus skb =
    not skb.protocol_ok
    || (ltb skb.transport_header skb.head
        || ltb skb.tail_pointer (skb.transport_header + udp_header))

-- pskb_may_pull refuses more than there is.
abbrev pub may_pull : Skb → ℕ → Bool
may_pull skb n = leb n skb.len && skb.pulls n

-- pskb_trim to `n`, then skb_pull of `offset`, which does nothing if that is more than there is.
abbrev pub trim : ℕ → Skb → Skb
trim n skb = if ltb n skb.len then record skb { len = n } else skb

abbrev pub pull : ℕ → Skb → Skb
pull offset skb =
    if ltb skb.len offset
    then skb
    else record skb { data_start = skb.data_start + offset; len = skb.len - offset }

-- The last checks, on the message itself.
abbrev pub accept_message : ℕ → ℕ → Skb → Option Skb
accept_message data_offset data_len skb =
    let header_len = validate_header_len skb in
    if not (skb.len == data_len)
    then none
    else if header_len == 0
    then none
    else if may_pull (record skb { len = skb.len + data_offset }) (data_offset + header_len)
    then some skb
    else none

-- data_offset, first at the UDP header and then behind it, and data_len behind it.
abbrev pub udp_offset : Skb → ℕ
udp_offset skb = sub64 skb.transport_header skb.data_start

abbrev pub data_offset_of : Skb → ℕ
data_offset_of skb = udp_offset skb + udp_header

abbrev pub data_len_of : Skb → ℕ
data_len_of skb = skb.udp_len - udp_header

abbrev pub is_misplaced : Skb → Bool
is_misplaced skb = ltb 65535 (udp_offset skb) || ltb skb.len (udp_offset skb + udp_header)

abbrev pub is_lying : Skb → Bool
is_lying skb = ltb skb.udp_len udp_header || ltb (skb.len - udp_offset skb) skb.udp_len

abbrev pub is_stuck : Skb → Bool
is_stuck skb =
    not (may_pull skb (data_offset_of skb + header_size))
    || (ltb (data_len_of skb + data_offset_of skb) skb.len && not skb.trims)

unfoldable pub prepare_skb_header : Skb → Option Skb
unfolding validate_header_len
prepare_skb_header skb =
    if is_bogus skb
    then none
    else if is_misplaced skb
    then none
    else if is_lying skb
    then none
    else if is_stuck skb
    then none
    else accept_message (data_offset_of skb) (data_len_of skb)
        (pull (data_offset_of skb) (trim (data_len_of skb + data_offset_of skb) skb))

-- The types and sizes of the four messages.
abbrev pub IsMessage : ℕ → ℕ → Type 0
IsMessage type len =
    ((type ≡ message_data) × (minimum_size ≤ len))
    ⊎ ((type ≡ message_initiation) × (len ≡ initiation_size))
    ⊎ ((type ≡ message_response) × (len ≡ response_size))
    ⊎ ((type ≡ message_cookie) × (len ≡ cookie_size))

-- Addresses do not wrap.
abbrev pub IsPlaced : Skb → Type 0
IsPlaced skb = (skb.data_start + skb.len < 2 ^ 64) × (skb.transport_header < 2 ^ 64)

validate_header_len-IsMessage :
    (skb : Skb)
    → (validate_header_len skb == 0) ≡ false
    → IsMessage (skb.type_at skb.data_start) skb.len
unfolding validate_header_len
validate_header_len-IsMessage skb h = ground (arith, h)

accept_message-some :
    (data_offset data_len : ℕ) (skb skb' : Skb)
    → accept_message data_offset data_len skb ≡ some skb'
    → (skb ≡ skb') × (skb.len ≡ data_len) × ((validate_header_len skb == 0) ≡ false)
accept_message-some data_offset data_len skb skb' h = ground (arith, h)

-- Where the message begins and ends.
record IsPulled (offset n : ℕ) (skb : Skb) : Type 0 where
  begins : (pull offset (trim (n + offset) skb)).data_start ≡ skb.data_start + offset
  ends : (pull offset (trim (n + offset) skb)).len ≡ min (n + offset) skb.len - offset
  type : (pull offset (trim (n + offset) skb)).type_at ≡ skb.type_at

pull-trim : (offset n : ℕ) (skb : Skb) → offset ≤ skb.len → IsPulled offset n skb
pull-trim offset n skb h = record {
  begins = ground (arith, h);
  ends = ground (arith, h);
  type = ground (arith);
}

accepted-IsMessage :
    (skb skb' : Skb)
    → IsPlaced skb
    → is_misplaced skb ≡ false
    → is_lying skb ≡ false
    → accept_message
        (data_offset_of skb)
        (data_len_of skb)
        (pull (data_offset_of skb) (trim (data_len_of skb + data_offset_of skb) skb))
      ≡ some skb'
    → (skb'.data_start ≡ skb.transport_header + udp_header)
      × (skb'.len + udp_header ≡ skb.udp_len)
      × (skb.data_start ≤ skb'.data_start)
      × (skb'.data_start + skb'.len ≤ skb.data_start + skb.len)
      × IsMessage (skb.type_at skb'.data_start) skb'.len
accepted-IsMessage skb skb' (a, b) e₁ e₂ h = rw (← acc.0) (
  omega (arith, pt.begins, fits),
  omega (arith, acc.1, fits),
  omega (arith, pt.begins),
  omega (arith, pt.begins, acc.1, fits),
  rw pt.type at (validate_header_len-IsMessage message acc.2),
)
  where
    message : Skb
    message = pull (data_offset_of skb) (trim (data_len_of skb + data_offset_of skb) skb)

    acc :
        (message ≡ skb')
        × (message.len ≡ data_len_of skb)
        × ((validate_header_len message == 0) ≡ false)
    acc = accept_message-some (data_offset_of skb) (data_len_of skb) message skb' h

    fits :
        (skb.data_start ≤ skb.transport_header)
        × (skb.transport_header + 8 ≤ skb.data_start + skb.len)
        × (data_offset_of skb ≡ skb.transport_header - skb.data_start + 8)
        × (8 ≤ skb.udp_len)
        × (skb.udp_len + (skb.transport_header - skb.data_start) ≤ skb.len)
    fits = ground (arith, e₁, e₂, a, b)

    pt : IsPulled (data_offset_of skb) (data_len_of skb) skb
    pt = pull-trim (data_offset_of skb) (data_len_of skb) skb (omega (arith, fits))

-- Take a datagram whose end and whose transport header have addresses below 2 ^ 64, so that no address
-- in it wraps. If prepare_skb_header accepts it, then the message it leaves begins right behind the UDP
-- header, is as long as the UDP length says, lies within the datagram, and is of one of the four types
-- with that type's size; a data message has at least the size of an empty one.
pub prepare_skb_header_lem :
    (skb skb' : Skb)
    → IsPlaced skb
    → prepare_skb_header skb ≡ some skb'
    → (skb'.data_start ≡ skb.transport_header + udp_header)
      × (skb'.len + udp_header ≡ skb.udp_len)
      × (skb.data_start ≤ skb'.data_start)
      × (skb'.data_start + skb'.len ≤ skb.data_start + skb.len)
      × IsMessage (skb.type_at skb'.data_start) skb'.len
unfolding prepare_skb_header
prepare_skb_header_lem skb skb' placed h = elim (Bool-cases (is_bogus skb)) [
  | inl e ↦ absurd (cc (simp e at h))
  | inr e ↦ elim (Bool-cases (is_misplaced skb)) [
    | inl e₁ ↦ absurd (cc (simp (e, e₁) at h))
    | inr e₁ ↦ elim (Bool-cases (is_lying skb)) [
      | inl e₂ ↦ absurd (cc (simp (e, e₁, e₂) at h))
      | inr e₂ ↦ elim (Bool-cases (is_stuck skb)) [
        | inl e₃ ↦ absurd (cc (simp (e, e₁, e₂, e₃) at h))
        | inr e₃ ↦ accepted-IsMessage skb skb' placed e₁ e₂ (simp (e, e₁, e₂, e₃) at h)
      ]
    ]
  ]
]
