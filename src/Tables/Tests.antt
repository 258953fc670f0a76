-- ===== src/Tables/Tests.antt =====
-- Three insertions, one of which draws an index that is in use, a replacement and a removal.
use wireguard_receive_path.Prelude.{
  ℕ, ◌≡◌, Bool, true, false, ◌==◌, if◌then◌else◌, none, some, List, [], ◌∷◌, refl, update,
  update_each,
}
use wireguard_receive_path.Prelude.{Bytes, same_bytes}
use wireguard_receive_path.Tables.Keys.{if_live, pubkey_hashtable_add-lookup}
use wireguard_receive_path.Tables.{
  PubkeyHashtable, pubkey_hashtable_add, pubkey_hashtable_remove, pubkey_hashtable_lookup,
}
use wireguard_receive_path.Tables.{
  EntryType, index_hashtable_handshake, index_hashtable_keypair, Mask, IndexHashtable,
  without_entry, index_hashtable_alloc, is_entry_of, index_hashtable_remove, index_hashtable_insert,
  index_hashtable_replace, index_hashtable_lookup, search_unused_slot,
}
use wireguard_receive_path.Tables.Refine.{
  IsTable, IsProper, Call, insert, replace, remove, run_call, run_calls, apply_all,
}
use wireguard_receive_path.Tables.Lookup.{granted, run_calls-index_hashtable_lookup}
use wireguard_receive_path.Tables.Slots.{IsInserted, index_hashtable_insert-ends}
use wireguard_receive_path.Tables.Buckets.{IsBucket}

abbrev one_entry : IndexHashtable
one_entry = record { buckets = update (λ b. []) 5 (1 ∷ []); index = update (λ e. 0) 1 5 }

one_entry-IsTable : IsTable one_entry
one_entry-IsTable =
    update_each (λ b l. IsBucket (update (λ e. 0) 1 5) b l) (λ b. []) 5 (1 ∷ []) (refl, refl, tt)
      (λ b. tt)

-- Indices 5 and 8197 are in one bucket.
abbrev calls : List Call
calls =
    insert (5 ∷ []) 1 ∷ insert (5 ∷ 8197 ∷ []) 2 ∷ insert (7 ∷ []) 3 ∷ replace 2 4 ∷ remove 3 ∷ []

abbrev types : ℕ → EntryType
types e = if e == 4 then index_hashtable_keypair else index_hashtable_handshake

abbrev is_live : ℕ → Bool
is_live e = true

abbrev only_keypairs : Mask
only_keypairs = record { handshakes = false; keypairs = true }

run_calls_test :
    (run_calls calls index_hashtable_alloc).0 ≡ some 5 ∷ some 8197 ∷ some 7 ∷ none ∷ none ∷ []
unfolding run_calls run_call index_hashtable_insert index_hashtable_remove index_hashtable_replace
    search_unused_slot index_hashtable_alloc
run_calls_test = refl

lookup_test :
    index_hashtable_lookup types is_live only_keypairs 8197
      (run_calls calls index_hashtable_alloc).1
    ≡ some 4
unfolding run_calls run_call index_hashtable_insert index_hashtable_remove index_hashtable_replace
    search_unused_slot index_hashtable_alloc index_hashtable_lookup
lookup_test = refl

calls-IsProper : IsProper calls index_hashtable_alloc
unfolding run_call index_hashtable_insert index_hashtable_remove search_unused_slot
    index_hashtable_alloc
calls-IsProper = (other, tt)
  where
    third :
        (b : ℕ)
        → is_entry_of 4 (without_entry 3 (without_entry 2 (update (λ b. []) 5 (1 ∷ []) b))) ≡ false
    third =
        update_each (λ b l. is_entry_of 4 (without_entry 3 (without_entry 2 l)) ≡ false) (λ b. []) 5
          (1 ∷ []) refl (λ b. refl)

    other :
        (b : ℕ)
        → is_entry_of 4 (
            (run_call
                (insert (7 ∷ []) 3)
                (run_call
                  (insert (5 ∷ 8197 ∷ []) 2)
                  (run_call (insert (5 ∷ []) 1) index_hashtable_alloc).1).1).1.buckets
              b)
          ≡ false
    other =
        update_each (λ b l. is_entry_of 4 l ≡ false) _ 7 (3 ∷ []) refl
          (update_each (λ b l. is_entry_of 4 (without_entry 3 l) ≡ false) _ 5 (2 ∷ 1 ∷ []) refl
            third)

run_calls-index_hashtable_lookup_example :
    index_hashtable_lookup types is_live only_keypairs 8197
      (run_calls calls index_hashtable_alloc).1
    ≡ granted types is_live only_keypairs
        (apply_all calls (run_calls calls index_hashtable_alloc).0 (λ j. none) 8197)
run_calls-index_hashtable_lookup_example =
    run_calls-index_hashtable_lookup types is_live only_keypairs 8197 calls calls-IsProper

index_hashtable_insert-ends_example :
    IsInserted 2
      (index_hashtable_remove 2 one_entry)
      (index_hashtable_insert (5 ∷ 8197 ∷ []) 2 one_entry)
unfolding index_hashtable_remove
index_hashtable_insert-ends_example =
    index_hashtable_insert-ends (5 ∷ 8197 ∷ []) 2 8197 one_entry one_entry-IsTable refl refl

abbrev keys : ℕ → Bytes
keys p = if p == 1 then 10 ∷ 11 ∷ [] else 20 ∷ 21 ∷ []

-- Both keys are in one bucket.
abbrev hash : Bytes → ℕ
hash key = 3

abbrev first_peer : PubkeyHashtable
first_peer = update (λ b. []) 3 (1 ∷ [])

first_peer_out : (b : ℕ) → is_entry_of 2 (first_peer b) ≡ false
first_peer_out = update_each (λ b l. is_entry_of 2 l ≡ false) (λ b. []) 3 (1 ∷ []) refl (λ b. refl)

pubkey_hashtable_add-lookup_example :
    (pubkey_hashtable_lookup hash keys is_live
        (20 ∷ 21 ∷ [])
        (pubkey_hashtable_add hash keys 2 first_peer)
      ≡ (if same_bytes (20 ∷ 21 ∷ []) (keys 2)
          then if_live is_live (some 2)
          else pubkey_hashtable_lookup hash keys is_live (20 ∷ 21 ∷ []) first_peer))
    × (pubkey_hashtable_lookup hash keys is_live
          (20 ∷ 21 ∷ [])
          (pubkey_hashtable_remove 2 (pubkey_hashtable_add hash keys 2 first_peer))
        ≡ pubkey_hashtable_lookup hash keys is_live (20 ∷ 21 ∷ []) first_peer)
pubkey_hashtable_add-lookup_example =
    pubkey_hashtable_add-lookup hash keys is_live 2 (20 ∷ 21 ∷ []) first_peer first_peer_out
