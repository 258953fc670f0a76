-- ===== src/AllowedIps/Tests.antt =====
-- Two prefixes of one family, one inside the other, and a packet for each.
use wireguard_receive_path.Prelude.{
  ℕ, ◌≡◌, true, false, ◌==◌, ◌||◌, if◌then◌else◌, none, some, List, [], ◌∷◌, refl, arith,
}
use wireguard_receive_path.AllowedIps.{
  Key, nil, einval, enomem, code, add, init, insert_v4, remove_v4, remove, common_bits, ipv4,
  lookup_packet, find_node,
}
use wireguard_receive_path.AllowedIps.Layout.{swap_endian, choose, choose-wire_bit}
use wireguard_receive_path.AllowedIps.Answers.{add-code}
use wireguard_receive_path.AllowedIps.Refine.{
  Call, insert4, remove4, run_calls, apply_all, empty, longest_match, run_calls-lookup,
}

-- 192.0.0.0 and 128.0.0.0
abbrev home : Key
home i = (i == 0) || (i == 1)

abbrev far : Key
far i = i == 0

abbrev calls : List Call
calls =
    insert4 (true, true) home 8 (some 1)
    ∷ insert4 (true, true) far 1 (some 2)
    ∷ insert4 (false, true) far 3 (some 3)
    ∷ insert4 (true, true) far 33 (some 3)
    ∷ remove4 home 8 2
    ∷ []

answers : (run_calls calls init).0 ≡ none ∷ none ∷ some enomem ∷ some einval ∷ none ∷ []
unfolding run_calls insert_v4 remove_v4 add remove init common_bits
answers = refl

home_peer : lookup_packet (run_calls calls init).1 (ipv4 home) ≡ some 1
unfolding run_calls lookup_packet find_node remove_v4 remove insert_v4 add init common_bits
home_peer = refl

far_peer : lookup_packet (run_calls calls init).1 (ipv4 far) ≡ some 2
unfolding run_calls lookup_packet find_node remove_v4 remove insert_v4 add init common_bits
far_peer = refl

run_calls-lookup_example :
    lookup_packet (run_calls calls init).1 (ipv4 home)
    ≡ longest_match (apply_all calls (run_calls calls init).0 empty) (ipv4 home)
run_calls-lookup_example = run_calls-lookup calls (ipv4 home)

add-code_example : code (add (true, true) 32 home 33 (some 1) nil) ≡ some einval
add-code_example = add-code 32 home 33 (some 1) nil

-- The address 10.0.0.7
abbrev bytes : ℕ → ℕ
bytes i = if i == 0 then 10 else if i == 3 then 7 else 0

choose-wire_bit_example : choose 29 32 (swap_endian 32 bytes) ≡ 1
choose-wire_bit_example = choose-wire_bit false bytes 29 (omega arith)
