-- ===== src/Replay/Tests.antt =====
-- The sequence of selftest/counter.c, and the theorems on it.
use wireguard_receive_path.Prelude.{ℕ, ◌+◌, ◌-◌, ◌*◌, true, false, List, [], ◌∷◌, ◌≡◌, refl}
use wireguard_receive_path.Replay.{
  counter_window_size, reject_after_messages, clear_words, slide, test_and_mark, counter_validate,
  fresh_counter, validate_all,
}
use wireguard_receive_path.Replay.Spec.{run_log}
use wireguard_receive_path.Replay.Refine.{
  feed, fresh_counter-Tracks, validate_all_refines, counter_validate-accepts_once,
}

abbrev limit : ℕ
limit = counter_window_size + 1

abbrev selftest : List ℕ
selftest =
    0
    ∷ 1
    ∷ 1
    ∷ 9
    ∷ 8
    ∷ 7
    ∷ 7
    ∷ limit
    ∷ (limit - 1)
    ∷ (limit - 1)
    ∷ (limit - 2)
    ∷ 2
    ∷ 2
    ∷ (limit + 16)
    ∷ 3
    ∷ (limit + 16)
    ∷ (limit * 4)
    ∷ (limit * 4 - (limit - 1))
    ∷ 10
    ∷ (limit * 4 - limit)
    ∷ (limit * 4 - (limit + 1))
    ∷ (limit * 4 - (limit - 2))
    ∷ (limit * 4 + 1 - limit)
    ∷ 0
    ∷ reject_after_messages
    ∷ (reject_after_messages - 1)
    ∷ reject_after_messages
    ∷ (reject_after_messages - 1)
    ∷ (reject_after_messages - 2)
    ∷ []

selftest_passes :
    validate_all fresh_counter selftest
    ≡ true ∷ true ∷ false ∷ true ∷ true ∷ true ∷ false ∷ true ∷ true ∷ false ∷ true ∷ true ∷ false
      ∷ true ∷ false ∷ false ∷ true ∷ true ∷ false ∷ false ∷ false ∷ true ∷ false ∷ false ∷ false
      ∷ true ∷ false ∷ false ∷ true ∷ []
unfolding validate_all fresh_counter counter_validate test_and_mark slide clear_words
selftest_passes = refl

validate_all_refines_example : validate_all fresh_counter selftest ≡ run_log [] selftest
validate_all_refines_example = validate_all_refines selftest fresh_counter [] fresh_counter-Tracks

counter_validate-accepts_once_example :
    (counter_validate (feed (counter_validate fresh_counter 5).1 (6 ∷ 9000 ∷ 7 ∷ [])) 5).0 ≡ false
unfolding counter_validate test_and_mark slide clear_words
counter_validate-accepts_once_example =
    counter_validate-accepts_once fresh_counter [] 5 (6 ∷ 9000 ∷ 7 ∷ []) fresh_counter-Tracks refl
