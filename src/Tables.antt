-- ===== src/Tables.antt =====
-- linux-source/drivers/net/wireguard/peerlookup.c: the hashtable that finds a handshake or a keypair by
-- its 32-bit index, and the one that finds a peer by its public key. One call at a time.
pub mod Buckets
pub mod Refine
pub mod Lookup
pub mod Slots
pub mod Keys
mod Tests
use wireguard_receive_path.Prelude.{
  ℕ, ◌%◌, Bool, true, false, not, ◌==◌, ◌&&◌, ◌||◌, if◌then◌else◌, Option, none, some, List, [],
  ◌∷◌, Bytes, same_bytes, update,
}

-- enum index_hashtable_type, of an entry, and as a mask of a lookup
pub data EntryType : Type 0 where
  index_hashtable_handshake index_hashtable_keypair : EntryType

pub record Mask : Type 0 where
  pub handshakes : Bool
  pub keypairs : Bool

abbrev pub is_in : EntryType → Mask → Bool
is_in index_hashtable_handshake m = m.handshakes
is_in index_hashtable_keypair m = m.keypairs

-- struct index_hashtable, with the index of each entry. An entry is a number.
pub record IndexHashtable : Type 0 where
  pub buckets : ℕ → List ℕ
  pub index : ℕ → ℕ

-- index & (HASH_SIZE(table->hashtable) - 1): the table has 2 ^ 13 buckets.
abbrev pub index_bucket : ℕ → ℕ
index_bucket i = i % 8192

-- hash_init
unfoldable pub index_hashtable_alloc : IndexHashtable
index_hashtable_alloc = record { buckets = λ b. []; index = λ e. 0 }

abbrev pub without_entry : ℕ → List ℕ → List ℕ
without_entry e [] = []
without_entry e (x ∷ xs) = let rest = without_entry e xs in if x == e then rest else x ∷ rest

abbrev pub is_entry_of : ℕ → List ℕ → Bool
is_entry_of e [] = false
is_entry_of e (x ∷ xs) = (x == e) || is_entry_of e xs

-- The first entry of a bucket that has the index.
abbrev pub entry_at : (ℕ → ℕ) → ℕ → List ℕ → Option ℕ
entry_at index i [] = none
entry_at index i (e ∷ es) = let rest = entry_at index i es in if index e == i then some e else rest

-- hlist_del_init: from the bucket that the entry is in, if it is in one
unfoldable pub index_hashtable_remove : ℕ → IndexHashtable → IndexHashtable
index_hashtable_remove e t = record t { buckets = λ b. without_entry e (t.buckets b) }

-- The draws of get_random_u32 up to the first index that is not in use. `none` is that the draws given
-- do not have one.
unfoldable pub search_unused_slot : List ℕ → IndexHashtable → Option ℕ
search_unused_slot [] t = none
search_unused_slot (i ∷ draws) t =
    let rest = search_unused_slot draws t in
    elim (entry_at t.index i (t.buckets (index_bucket i))) [ none ↦ some i | some e ↦ rest ]

-- wg_index_hashtable_insert: the index, and the table
unfoldable pub index_hashtable_insert :
    (draws : List ℕ) (entry : ℕ) → IndexHashtable → Option ℕ × IndexHashtable
unfolding index_hashtable_remove search_unused_slot
index_hashtable_insert draws e t =
    let removed = index_hashtable_remove e t in
    elim (search_unused_slot draws removed) [
      | none ↦ (none, removed)
      | some i ↦ (
        some i,
        record {
          buckets = update removed.buckets (index_bucket i) (e ∷ removed.buckets (index_bucket i));
          index = update removed.index e i;
        },
      )
    ]

abbrev pub replaced : (old new : ℕ) → List ℕ → List ℕ
replaced old new [] = []
replaced old new (x ∷ xs) = (if x == old then new else x) ∷ replaced old new xs

-- wg_index_hashtable_replace: whether the old entry was in the table, in the bucket of its index
unfoldable pub index_hashtable_replace : (old new : ℕ) → IndexHashtable → Bool × IndexHashtable
index_hashtable_replace old new t =
    let bucket = t.buckets (index_bucket (t.index old)) in
    if is_entry_of old bucket
    then (
      true,
      record {
        buckets = update t.buckets (index_bucket (t.index old)) (replaced old new bucket);
        index = update t.index new (t.index old);
      },
    )
    else (false, t)

-- wg_index_hashtable_lookup: the first entry with the index, if it is of a type that is asked for, and
-- its peer can still be referred to
unfoldable pub index_hashtable_lookup :
    (types : ℕ → EntryType) (is_live : ℕ → Bool) → Mask → (index : ℕ) → IndexHashtable → Option ℕ
index_hashtable_lookup types is_live mask i t =
    elim (entry_at t.index i (t.buckets (index_bucket i))) [
      | none ↦ none
      | some e ↦ if is_in (types e) mask && is_live e then some e else none
    ]

-- struct pubkey_hashtable: the peers of each bucket. The keyed hash is a parameter.
abbrev pub PubkeyHashtable : Type 0
PubkeyHashtable = ℕ → List ℕ

abbrev pub pubkey_bucket : (hash : Bytes → ℕ) → Bytes → ℕ
pubkey_bucket hash key = hash key % 2048

-- wg_pubkey_hashtable_add, remove and lookup, where `hash` is siphash with the table's key, and `remote_static`
-- the key of each peer
unfoldable pub pubkey_hashtable_add :
    (hash : Bytes → ℕ) (remote_static : ℕ → Bytes) (peer : ℕ) → PubkeyHashtable → PubkeyHashtable
pubkey_hashtable_add hash remote_static p t =
    update t (pubkey_bucket hash (remote_static p)) (p ∷ t (pubkey_bucket hash (remote_static p)))

unfoldable pub pubkey_hashtable_remove : (peer : ℕ) → PubkeyHashtable → PubkeyHashtable
pubkey_hashtable_remove p t b = without_entry p (t b)

abbrev pub peer_of : (ℕ → Bytes) → Bytes → List ℕ → Option ℕ
peer_of remote_static key [] = none
peer_of remote_static key (p ∷ ps) =
    let rest = peer_of remote_static key ps in
    if same_bytes key (remote_static p) then some p else rest

unfoldable pub pubkey_hashtable_lookup :
    (hash : Bytes → ℕ) (remote_static : ℕ → Bytes) (is_live : ℕ → Bool)
    → Bytes
    → PubkeyHashtable
    → Option ℕ
pubkey_hashtable_lookup hash remote_static is_live key t =
    elim (peer_of remote_static key (t (pubkey_bucket hash key))) [
      | none ↦ none
      | some p ↦ if is_live p then some p else none
    ]
