-- ===== src/Keypairs/Step.antt =====
-- The threads that use a peer's keypairs, as steps that each hold keypair_update_lock or the lock of
-- the index hashtable.
use wireguard_receive_path.Prelude.{
  ℕ, ◌+◌, ◌-◌, ◌<◌, ◌≡◌, Bool, true, false, none, some, update, ◌==◌, if◌then◌else◌,
}
use wireguard_receive_path.Keypairs.{
  Keypairs, keypair_put, keypair_get, keypairs_clear, expire_current_peer_keypairs,
  received_with_keypair, keypair_hash,
}
use wireguard_receive_path.Keypairs.Counted.{slots}
use wireguard_receive_path.Keypairs.Session.{HandshakeState, add_session}

-- `held` counts the references of packets and threads; `confirmed` are the keypairs with which an
-- authentic packet came since they were made. `hashing` are those whose handshake's thread stands
-- between add_new_keypair and wg_index_hashtable_replace, and `late` those that were in no slot any more
-- when it went on.
pub record Users : Type 0 where
  pub keypairs : Keypairs
  pub held : ℕ → ℕ
  pub confirmed : ℕ → Bool
  pub hashing : ℕ → Bool
  pub late : ℕ → Bool

pub data Step (u : Users) : Users → Type 0 where
  -- begin_session up to the end of add_new_keypair. The address is free, and is not given out before a
  -- reader of the old memory, in an RCU section until it has called wg_index_hashtable_replace, is done.
  begins :
      (h : HandshakeState) (is_dead : Bool) (now : ℕ) (k : ℕ)
      → (u.keypairs.pairs k).live ≡ false
      → u.hashing k ≡ false
      → Step u (record u {
        keypairs = (add_session h is_dead now k u.keypairs).1;
        confirmed = update u.confirmed k false;
        hashing = update u.hashing k (add_session h is_dead now k u.keypairs).0;
        late = if (add_session h is_dead now k u.keypairs).0 then update u.late k false else u.late;
      })
  -- the rest of begin_session, whatever came in between
  hashes :
      (handshake_hashed : Bool) (k : ℕ)
      → u.hashing k ≡ true
      → Step u (record u {
        keypairs = keypair_hash handshake_hashed k u.keypairs;
        hashing = update u.hashing k false;
        late = update u.late k (slots u.keypairs k == 0);
      })
  -- a packet that was decrypted with `k`, and holds it, is delivered
  receives :
      (k : ℕ)
      → 0 < u.held k
      → Step u (record u {
        keypairs = (received_with_keypair u.keypairs k).1;
        confirmed = update u.confirmed k true;
      })
  clears : Step u (record u { keypairs = keypairs_clear u.keypairs })
  expires : Step u (record u { keypairs = expire_current_peer_keypairs u.keypairs })
  -- any reader that has the pointer, stale or not, tries to take a reference
  gets :
      (k : ℕ)
      → Step u (record u {
        keypairs = (let s = u.keypairs in record s { pairs = (keypair_get (some k) s.pairs).1 });
        held = update u.held k (elim (keypair_get (some k) u.keypairs.pairs).0 [
          | none ↦ u.held k
          | some _ ↦ u.held k + 1
        ]);
      })
  puts :
      (k : ℕ)
      → 0 < u.held k
      → Step u (record u {
        keypairs = (let s = u.keypairs in record s { pairs = keypair_put (some k) false s.pairs });
        held = update u.held k (u.held k - 1);
      })

pub data Reach (u : Users) : Users → Type 0 where
  here : Reach u u
  next : {v w : Users} → Reach u v → Step v w → Reach u w

-- A peer that was just created.
pub record IsNew (u : Users) : Type 0 where
  pub no_current : u.keypairs.current_keypair ≡ none
  pub no_previous : u.keypairs.previous_keypair ≡ none
  pub no_next : u.keypairs.next_keypair ≡ none
  pub no_pairs : (k : ℕ) → (u.keypairs.pairs k).live ≡ false
  pub no_refs : (k : ℕ) → (u.keypairs.pairs k).refs ≡ 0
  pub no_hashed : (k : ℕ) → (u.keypairs.pairs k).hashed ≡ false
  pub no_held : (k : ℕ) → u.held k ≡ 0
  pub no_hashing : (k : ℕ) → u.hashing k ≡ false
