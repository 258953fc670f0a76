-- ===== src/Keypairs/Race.antt =====
-- The gap in wg_noise_handshake_begin_session between add_new_keypair, after which the lock on the
-- keypairs is free, and wg_index_hashtable_replace.
use wireguard_receive_path.Prelude.{ℕ, ◌≡◌, Bool, true, false, arith, refl, update}
use wireguard_receive_path.Keypairs.{Keypairs, keypairs_clear, add_new_keypair, keypair_hash}
use wireguard_receive_path.Keypairs.Session.{with_made}
use wireguard_receive_path.Keypairs.Counted.{
  slots, IsCounted, AllCounted, add_new_keypair-IsCounted, keypairs_clear-IsCounted,
}
use wireguard_receive_path.Keypairs.References.{made-IsCounted}

-- wg_noise_keypairs_clear runs in the gap.
abbrev pub cleared_in_gap : Keypairs → ℕ → Bool → ℕ → Keypairs
cleared_in_gap s new initiator now =
    keypair_hash true new (keypairs_clear (add_new_keypair (with_made new initiator now s) new))

keypairs_clear-slots : (s : Keypairs) (k : ℕ) → slots (keypairs_clear s) k ≡ 0
unfolding keypairs_clear
keypairs_clear-slots s k = refl

-- From a state whose references are counted, with no thread that holds a keypair of address `new`:
-- if the handshake stands in the index hashtable and wg_noise_keypairs_clear runs in the gap, the index hashtable finds the new keypair though its
-- last reference is gone and its memory is on its way to be freed.
pub cleared_in_gap-dangles :
    (s : Keypairs) (held : ℕ → ℕ) (late : ℕ → Bool) (new : ℕ) (initiator : Bool) (now : ℕ)
    → AllCounted s held late
    → (s.pairs new).live ≡ false
    → (((cleared_in_gap s new initiator now).pairs new).hashed ≡ true)
      × (((cleared_in_gap s new initiator now).pairs new).live ≡ false)
unfolding keypair_hash
cleared_in_gap-dangles s held late new initiator now h dead = (ground arith, gone)
  where
    t : Keypairs
    t = keypairs_clear (add_new_keypair (with_made new initiator now s) new)

    c : IsCounted (t.pairs new) (slots t new) (held new) (update late new false new)
    c =
        keypairs_clear-IsCounted _ held (update late new false)
          (add_new_keypair-IsCounted _ held (update late new false) new
            (made-IsCounted s held late new initiator now h dead))
          new

    no_slot : slots t new ≡ 0
    no_slot = keypairs_clear-slots (add_new_keypair (with_made new initiator now s) new) new

    gone : ((cleared_in_gap s new initiator now).pairs new).live ≡ false
    gone = ground (arith, c.counted, c.allocated, no_slot, (h new).counted, (h new).allocated)
