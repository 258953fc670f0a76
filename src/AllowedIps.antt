-- ===== src/AllowedIps.antt =====
-- linux-source/drivers/net/wireguard/allowedips.c: which peer an address belongs to. Two tries of
-- prefixes, one for each protocol; a lookup finds the longest prefix.
pub mod Layout
pub mod Bits
pub mod Shape
pub mod Connect
pub mod Add
pub mod Place
pub mod Answers
pub mod Detach
pub mod Remove
pub mod Longest
pub mod Refine
mod Tests
use wireguard_receive_path.Prelude.{
  ℕ, zero, suc, ◌+◌, ◌-◌, min, Bool, true, false, ltb, leb, ◌==◌, ◌&&◌, ◌||◌, not, if◌then◌else◌,
  Option, none, some, List, [], ◌∷◌,
}

-- The bits of an address, the most significant first. Layout has the bytes that hold them.
abbrev pub Key : Type 0
Key = ℕ → Bool

abbrev pub xor : Bool → Bool → Bool
xor true b = not b
xor false b = b

-- fls, fls64 and fls128 of the `n` bits from place `i` on: how many are left at the first that is set.
unfoldable pub fls : (n i : ℕ) → Key → ℕ
fls zero i x = 0
fls (suc n) i x = let rest = fls n (i + 1) x in if x i then suc n else rest

unfoldable pub common_bits : (bits : ℕ) → Key → Key → ℕ
unfolding fls
common_bits bits a b = bits - fls bits 0 (λ i. xor (a i) (b i))

-- struct allowedips_node: the peer, the cidr, the bits, and the two children. A null pointer is `nil`.
-- The parent's pointer, which parent_bit_packed holds, is where the node stands.
pub data Trie : Type 0 where
  nil : Trie
  node : (peer : Option ℕ) (cidr : ℕ) (bits : Key) (zero one : Trie) → Trie

-- prefix_matches, for a node of this cidr and these bits
abbrev pub prefix_matches : (bits cidr : ℕ) → (node key : Key) → Bool
prefix_matches bits cidr n key = leb cidr (common_bits bits n key)

abbrev pub has_peer : Option ℕ → Bool
has_peer none = false
has_peer (some p) = true

-- The peer of the node that the loop of find_node ends with; `found` is the one found so far.
unfoldable pub find_node : (bits : ℕ) → Key → Trie → Option ℕ → Option ℕ
find_node bits key nil found = found
find_node bits key (node peer cidr n z o) found =
    let found' = if has_peer peer then peer else found in
    let left = find_node bits key z found' in
    let right = find_node bits key o found' in
    if not (prefix_matches bits cidr n key)
    then found
    else if cidr == bits
    then found'
    else if key cidr
    then right
    else left

-- choose_and_connect_node: the child on the side of `bit`.
abbrev pub connect : Bool → Trie → Trie → Trie
connect bit child nil = nil
connect true child (node p c n z o) = node p c n z child
connect false child (node p c n z o) = node p c n child o

-- The end of add, where the walk stopped at `down`: a new node above it, or a node above both.
unfoldable pub split : (bits : ℕ) → Key → (cidr peer : ℕ) → (down_bits : Key) → Trie → Trie
split bits key cidr peer down_bits down =
    let shared = min cidr (common_bits bits down_bits key) in
    let newnode = node (some peer) cidr key nil nil in
    if cidr == shared
    then connect (down_bits cidr) down newnode
    else connect (key shared) newnode
        (connect (down_bits shared) down (node none shared key nil nil))

-- Whether the walk of node_placement goes below a node.
abbrev pub goes_below : (bits : ℕ) → Key → (cidr node_cidr : ℕ) → Key → Bool
goes_below bits key cidr c n = leb c cidr && prefix_matches bits c n key

-- The walk of node_placement, and what add does where it ends. `none` is -ENOMEM: `alloc` says whether
-- the new node and the node above it could be allocated.
unfoldable pub place : (alloc : Bool × Bool) (bits : ℕ) → Key → (cidr peer : ℕ) → Trie → Option Trie
unfolding split
place (new, above) bits key cidr peer nil =
    if new then some (node (some peer) cidr key nil nil) else none
place (new, above) bits key cidr peer (node q c n z o) =
    let left = place (new, above) bits key cidr peer z in
    let right = place (new, above) bits key cidr peer o in
    if goes_below bits key cidr c n
    then if c == cidr
      then some (node (some peer) c n z o)
      else if key c
      then elim right [ none ↦ none | some o' ↦ some (node q c n z o') ]
      else elim left [ none ↦ none | some z' ↦ some (node q c n z' o) ]
    else if not new
    then none
    else if cidr == min cidr (common_bits bits n key) || above
    then some (split bits key cidr peer n (node q c n z o))
    else none

pub data Error : Type 0 where
  einval enomem : Error

-- What a call returns, with the trie it leaves.
pub data Result : Type 0 where
  done : Trie → Result
  failed : Error → Trie → Result

abbrev pub left : Result → Trie
left (done t) = t
left (failed e t) = t

unfoldable pub add : (alloc : Bool × Bool) (bits : ℕ) → Key → (cidr : ℕ) → Option ℕ → Trie → Result
unfolding place
add alloc bits key cidr none t = failed einval t
add alloc bits key cidr (some peer) t =
    if ltb bits cidr
    then failed einval t
    else elim (place alloc bits key cidr peer t) [ none ↦ failed enomem t | some t' ↦ done t' ]

-- remove_node, for the subtree at the node.
abbrev pub take_out : ℕ → Key → Trie → Trie → Trie
take_out c n nil o = o
take_out c n z nil = z
take_out c n z o = node none c n z o

abbrev pub is_nil : Trie → Bool
is_nil nil = true
is_nil _ = false

-- The node is the one to remove, and a leaf.
abbrev pub is_leaf_at : (bits : ℕ) → Key → (cidr peer : ℕ) → Trie → Bool
is_leaf_at bits key cidr peer (node (some q) c n nil nil) =
    goes_below bits key cidr c n && ((c == cidr) && (q == peer))
is_leaf_at bits key cidr peer _ = false

-- The parent of a leaf that is removed goes too if it has no peer of its own.
abbrev pub without_leaf : Option ℕ → ℕ → Key → Bool → Trie → Trie → Trie
without_leaf none c n gone kept other = if gone then other else kept
without_leaf (some q) c n gone kept other = kept

abbrev pub is_peer : Option ℕ → ℕ → Bool
is_peer none peer = false
is_peer (some q) peer = q == peer

-- remove, from the walk of node_placement on.
unfoldable pub take_from : (bits : ℕ) → Key → (cidr peer : ℕ) → Trie → Trie
take_from bits key cidr peer nil = nil
take_from bits key cidr peer (node q c n z o) =
    let z' = take_from bits key cidr peer z in
    let o' = take_from bits key cidr peer o in
    if not (goes_below bits key cidr c n)
    then node q c n z o
    else if c == cidr
    then if is_peer q peer then take_out c n z o else node q c n z o
    else if key c
    then without_leaf q c n (is_leaf_at bits key cidr peer o) (node q c n z o') z
    else without_leaf q c n (is_leaf_at bits key cidr peer z) (node q c n z' o) o

unfoldable pub remove : (bits : ℕ) → Key → (cidr peer : ℕ) → Trie → Result
unfolding take_from
remove bits key cidr peer t =
    if ltb bits cidr then failed einval t else done (take_from bits key cidr peer t)

-- struct allowedips
pub record Table : Type 0 where
  pub root4 : Trie
  pub root6 : Trie
  pub seq : ℕ

unfoldable pub init : Table
init = record { root4 = nil; root6 = nil; seq = 1 }

unfoldable pub free : Table → Table
free t = record { root4 = nil; root6 = nil; seq = t.seq + 1 }

-- lookup, where every peer that the trie names can still be referred to.
unfoldable pub lookup : Trie → (bits : ℕ) → Key → Option ℕ
lookup root bits ip = find_node bits ip root none

-- What a lookup reads of a packet: the protocol, and the address from the header of that protocol.
pub data Header : Type 0 where
  ipv4 : Key → Header
  ipv6 : Key → Header
  other : Header

-- wg_allowedips_lookup_dst on the destination, and wg_allowedips_lookup_src on the source
unfoldable pub lookup_packet : Table → Header → Option ℕ
unfolding lookup
lookup_packet t (ipv4 ip) = lookup t.root4 32 ip
lookup_packet t (ipv6 ip) = lookup t.root6 128 ip
lookup_packet t other = none

abbrev pub bump : Table → Table
bump t = record t { seq = t.seq + 1 }

abbrev pub code : Result → Option Error
code (done t) = none
code (failed e t) = some e

unfoldable pub insert_v4 :
    (alloc : Bool × Bool) → Key → (cidr : ℕ) → Option ℕ → Table → Option Error × Table
insert_v4 alloc ip cidr peer t =
    let r = add alloc 32 ip cidr peer t.root4 in (code r, record (bump t) { root4 = left r })

unfoldable pub insert_v6 :
    (alloc : Bool × Bool) → Key → (cidr : ℕ) → Option ℕ → Table → Option Error × Table
insert_v6 alloc ip cidr peer t =
    let r = add alloc 128 ip cidr peer t.root6 in (code r, record (bump t) { root6 = left r })

unfoldable pub remove_v4 : Key → (cidr peer : ℕ) → Table → Option Error × Table
remove_v4 ip cidr peer t =
    let r = remove 32 ip cidr peer t.root4 in (code r, record (bump t) { root4 = left r })

unfoldable pub remove_v6 : Key → (cidr peer : ℕ) → Table → Option Error × Table
remove_v6 ip cidr peer t =
    let r = remove 128 ip cidr peer t.root6 in (code r, record (bump t) { root6 = left r })
