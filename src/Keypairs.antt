-- ===== src/Keypairs.antt =====
-- The three keypairs of a peer in linux-source/drivers/net/wireguard/noise.c: which one sends, which
-- ones may still receive, and the references to each.
pub mod Session
pub mod Step
pub mod Counted
pub mod References
pub mod Roles
pub mod Race
mod Tests
use wireguard_receive_path.Prelude.{
  ℕ, ◌+◌, ◌-◌, Bool, true, false, ltb, Option, none, some, ◌==◌, if◌then◌else◌, update,
}

-- struct noise_keypair without its keys. `refs` is the kref, `hashed` whether the index hashtable
-- finds it, and `live` whether the memory is not on its way to be freed.
pub record Keypair : Type 0 where
  pub i_am_the_initiator : Bool
  pub sending_is_valid : Bool
  pub sending_birthdate : ℕ
  pub receiving_is_valid : Bool
  pub receiving_birthdate : ℕ
  pub refs : ℕ
  pub hashed : Bool
  pub live : Bool

-- struct noise_keypairs, with the memory its pointers lead to.
pub record Keypairs : Type 0 where
  pub current_keypair : Option ℕ
  pub previous_keypair : Option ℕ
  pub next_keypair : Option ℕ
  pub pairs : ℕ → Keypair

-- kref_put, with keypair_free_kref where the last reference goes. The kernel's refcount warns at 0.
abbrev pub kref_put : Keypair → Keypair
kref_put kp =
    if kp.refs == 1
    then record kp { refs = 0; hashed = false; live = false }
    else record kp { refs = kp.refs - 1 }

abbrev pub unhash : Bool → Keypair → Keypair
unhash unreference_now kp = if unreference_now then record kp { hashed = false } else kp

-- wg_noise_keypair_put
abbrev pub keypair_put : Option ℕ → Bool → (ℕ → Keypair) → ℕ → Keypair
keypair_put none unreference_now m = m
keypair_put (some k) unreference_now m = update m k (kref_put (unhash unreference_now (m k)))

-- wg_noise_keypair_get
unfoldable pub keypair_get : Option ℕ → (ℕ → Keypair) → Option ℕ × (ℕ → Keypair)
keypair_get none m = (none, m)
keypair_get (some k) m =
    let kp = m k in
    if kp.refs == 0 then (none, m) else (some k, update m k (record kp { refs = kp.refs + 1 }))

-- keypair_create: the allocation gives the address `k`.
unfoldable pub keypair_create : ℕ → (ℕ → Keypair) → ℕ → Keypair
keypair_create k m = update m k (record {
  i_am_the_initiator = false;
  sending_is_valid = false;
  sending_birthdate = 0;
  receiving_is_valid = false;
  receiving_birthdate = 0;
  refs = 1;
  hashed = false;
  live = true;
})

unfoldable pub keypairs_clear : Keypairs → Keypairs
keypairs_clear s = record {
  current_keypair = none;
  previous_keypair = none;
  next_keypair = none;
  pairs =
      keypair_put s.current_keypair true
        (keypair_put s.previous_keypair true (keypair_put s.next_keypair true s.pairs));
}

-- keypair->sending.is_valid = false, if there is one
abbrev pub stop_sending : Option ℕ → (ℕ → Keypair) → ℕ → Keypair
stop_sending none m = m
stop_sending (some k) m = let kp = m k in update m k (record kp { sending_is_valid = false })

-- wg_noise_expire_current_peer_keypairs under its lock
unfoldable pub expire_current_peer_keypairs : Keypairs → Keypairs
expire_current_peer_keypairs s = record s {
  pairs = stop_sending s.current_keypair (stop_sending s.next_keypair s.pairs);
}

-- The initiator's half of add_new_keypair.
abbrev pub add_as_initiator : Keypairs → ℕ → Option ℕ → Keypairs
add_as_initiator s new none = record s {
  previous_keypair = s.current_keypair;
  current_keypair = some new;
  pairs = keypair_put s.previous_keypair true s.pairs;
}
add_as_initiator s new (some next) = record {
  next_keypair = none;
  previous_keypair = some next;
  current_keypair = some new;
  pairs = keypair_put s.previous_keypair true (keypair_put s.current_keypair true s.pairs);
}

unfoldable pub add_new_keypair : Keypairs → ℕ → Keypairs
add_new_keypair s new =
    if (s.pairs new).i_am_the_initiator then add_as_initiator s new s.next_keypair else record s {
      next_keypair = some new;
      previous_keypair = none;
      pairs = keypair_put s.previous_keypair true (keypair_put s.next_keypair true s.pairs);
    }

abbrev pub is_slot : Option ℕ → ℕ → Bool
is_slot none k = false
is_slot (some j) k = j == k

-- Both tests of next_keypair see the same value here: the lock is held from one to the other.
unfoldable pub received_with_keypair : Keypairs → ℕ → Bool × Keypairs
received_with_keypair s k =
    if is_slot s.next_keypair k
    then (
      true,
      record {
        previous_keypair = s.current_keypair;
        current_keypair = some k;
        next_keypair = none;
        pairs = keypair_put s.previous_keypair true s.pairs;
      },
    )
    else (false, s)

-- wg_index_hashtable_replace puts the keypair in the table, in the place of its handshake, if the
-- handshake stands there.
unfoldable pub keypair_hash : (handshake_hashed : Bool) → ℕ → Keypairs → Keypairs
keypair_hash handshake_hashed k s =
    let kp = s.pairs k in
    if handshake_hashed
    then record s { pairs = update s.pairs k (record kp { hashed = true }) }
    else s
