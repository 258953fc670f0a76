-- ===== src/Keypairs/Session.antt =====
-- wg_noise_handshake_begin_session: how a finished handshake becomes a keypair.
use wireguard_receive_path.Prelude.{
  ℕ, Bool, true, false, not, ◌&&◌, Option, none, some, if◌then◌else◌, update,
}
use wireguard_receive_path.Keypairs.{
  Keypair, Keypairs, keypair_create, add_new_keypair, keypair_hash,
}

-- enum noise_handshake_state
pub data HandshakeState : Type 0 where
  zeroed created_initiation consumed_initiation created_response consumed_response : HandshakeState

abbrev pub is_initiator : HandshakeState → Bool
is_initiator consumed_response = true
is_initiator _ = false

abbrev pub is_finished : HandshakeState → Bool
is_finished created_response = true
is_finished consumed_response = true
is_finished _ = false

-- derive_keys sets both birthdates to the time it reads, and both keys valid.
abbrev pub derive_keys : ℕ → Bool → Keypair → Keypair
derive_keys now initiator kp = record kp {
  i_am_the_initiator = initiator;
  sending_is_valid = true;
  sending_birthdate = now;
  receiving_is_valid = true;
  receiving_birthdate = now;
}

-- The memory with the keypair that the session has made, at `k`.
unfoldable pub with_made : ℕ → Bool → ℕ → Keypairs → Keypairs
unfolding keypair_create
with_made k initiator now s =
    let m = keypair_create k s.pairs in
    record s { pairs = update m k (derive_keys now initiator (m k)) }

-- wg_noise_handshake_begin_session up to add_new_keypair, which gives up the lock on the keypairs:
-- whether the keypair was added, and the slots.
unfoldable pub add_session :
    HandshakeState → (is_dead : Bool) (now : ℕ) (new : ℕ) → Keypairs → Bool × Keypairs
unfolding with_made add_new_keypair
add_session h is_dead now k s =
    let added = add_new_keypair (with_made k (is_initiator h) now s) k in
    if is_finished h && not is_dead then (true, added) else (false, s)

-- The whole of it, where nothing comes between its two halves. `new` is the address that the allocation
-- gives, if it gives one; `hashed` is whether the handshake stands in the index hashtable, whose place
-- the keypair takes. The handshake is left zeroed.
unfoldable pub begin_session :
    HandshakeState
    → (is_dead hashed : Bool) (now : ℕ) (new : Option ℕ) → Keypairs
    → Bool × HandshakeState × Keypairs
unfolding add_session keypair_hash
begin_session h is_dead hashed now none s = (false, h, s)
begin_session h is_dead hashed now (some k) s =
    let (added, t) = add_session h is_dead now k s in
    let left = if is_finished h then zeroed else h in
    if added then (hashed, left, keypair_hash hashed k t) else (false, left, t)
