-- ===== src/Keypairs/Tests.antt =====
-- A peer's sessions: the other side asks for one, confirms it, and asks for the next.
use wireguard_receive_path.Prelude.{true, false, none, some, ◌≡◌, refl, arith}
use wireguard_receive_path.Keypairs.{
  Keypair, Keypairs, keypair_get, keypair_create, received_with_keypair, add_new_keypair,
  keypair_hash, keypairs_clear,
}
use wireguard_receive_path.Keypairs.Session.{
  created_response, consumed_response, with_made, add_session, begin_session,
}
use wireguard_receive_path.Keypairs.Step.{
  Users, begins, hashes, clears, receives, gets, Reach, here, next, IsNew,
}
use wireguard_receive_path.Keypairs.Counted.{slots, IsCounted}
use wireguard_receive_path.Keypairs.References.{Reach-IsCounted}
use wireguard_receive_path.Keypairs.Roles.{IsSafe, Reach-IsSafe}
use wireguard_receive_path.Keypairs.Race.{cleared_in_gap, cleared_in_gap-dangles}

abbrev unallocated : Keypair
unallocated = record {
  i_am_the_initiator = false;
  sending_is_valid = false;
  sending_birthdate = 0;
  receiving_is_valid = false;
  receiving_birthdate = 0;
  refs = 0;
  hashed = false;
  live = false;
}

abbrev new_keypairs : Keypairs
new_keypairs = record {
  current_keypair = none;
  previous_keypair = none;
  next_keypair = none;
  pairs = λ k. unallocated;
}

abbrev new_users : Users
new_users = record {
  keypairs = new_keypairs;
  held = λ k. 0;
  confirmed = λ k. false;
  hashing = λ k. false;
  late = λ k. false;
}

new_users-IsNew : IsNew new_users
new_users-IsNew = record {
  no_current = refl;
  no_previous = refl;
  no_next = refl;
  no_pairs = λ k. refl;
  no_refs = λ k. refl;
  no_hashed = λ k. refl;
  no_held = λ k. refl;
  no_hashing = λ k. refl;
}

-- The session 1 is made for the other side's handshake, a packet takes a reference and confirms it,
-- then the session 2 is made for our own.
abbrev two_sessions : (u : Users) × Reach new_users u
unfolding add_session with_made keypair_create add_new_keypair keypair_hash keypair_get
    received_with_keypair
two_sessions = (
  _,
  next
      (next
        (next
          (next
            (next (next here (begins created_response false 7 1 refl refl)) (hashes true 1 refl))
            (gets 1))
          (receives 1 (omega arith)))
        (begins consumed_response false 9 2 refl refl))
      (hashes true 2 refl),
)

two_sessions_slots :
    (two_sessions.0.keypairs.current_keypair ≡ some 2)
    × (two_sessions.0.keypairs.previous_keypair ≡ some 1)
    × ((two_sessions.0.keypairs.pairs 1).refs ≡ 2)
unfolding two_sessions add_session with_made keypair_create add_new_keypair keypair_hash keypair_get
    received_with_keypair
two_sessions_slots = (refl, refl, refl)

Reach-IsCounted_example :
    IsCounted
      (two_sessions.0.keypairs.pairs 1)
      (slots two_sessions.0.keypairs 1)
      (two_sessions.0.held 1)
      (two_sessions.0.late 1)
Reach-IsCounted_example = Reach-IsCounted new_users-IsNew two_sessions.1 1

Reach-IsSafe_example : IsSafe two_sessions.0.keypairs two_sessions.0.confirmed 2
Reach-IsSafe_example = Reach-IsSafe new_users-IsNew two_sessions.1 2

cleared_in_gap-dangles_example :
    (((cleared_in_gap new_keypairs 1 false 7).pairs 1).hashed ≡ true)
    × (((cleared_in_gap new_keypairs 1 false 7).pairs 1).live ≡ false)
cleared_in_gap-dangles_example =
    cleared_in_gap-dangles new_keypairs (λ k. 0) (λ k. false) 1 false 7
      (Reach-IsCounted new_users-IsNew here) refl

-- Nothing comes between the halves.
begin_session_test :
    (let r = begin_session created_response false true 7 (some 1) new_keypairs in
      (r.0 ≡ true) × (r.2.next_keypair ≡ some 1) × ((r.2.pairs 1).hashed ≡ true))
unfolding begin_session add_session with_made keypair_create add_new_keypair keypair_hash
begin_session_test = (refl, refl, refl)

-- The clear in the gap, as steps: the hashtable finds a keypair that stands in no slot.
abbrev cleared_session : (u : Users) × Reach new_users u
unfolding add_session with_made keypair_create add_new_keypair keypair_hash keypairs_clear
cleared_session = (
  _,
  next (next (next here (begins created_response false 7 1 refl refl)) clears) (hashes true 1 refl),
)

cleared_session_test :
    ((cleared_session.0.keypairs.pairs 1).hashed ≡ true)
    × (slots cleared_session.0.keypairs 1 ≡ 0)
    × (cleared_session.0.late 1 ≡ true)
unfolding cleared_session add_session with_made keypair_create add_new_keypair keypair_hash
    keypairs_clear
cleared_session_test = (refl, refl, refl)
