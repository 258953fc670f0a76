-- ===== src/Replay.antt =====
-- The replay window of build/wg515-trigger/receive.c: counter_validate over
-- struct noise_replay_counter (noise.h), with the sizes of messages.h.
pub mod Spec
pub mod Clear
pub mod Refine
mod Tests
use wireguard_receive_path.Prelude.{
  ℕ, zero, suc, ◌+◌, ◌-◌, ◌/◌, ◌%◌, ◌^◌, min, Bool, true, false, not, ◌||◌, List, [], ◌∷◌, ltb, leb,
  ◌==◌, ◌&&◌, if◌then◌else◌, u64, sub64,
}

abbrev pub bits_per_long : ℕ
bits_per_long = 64

abbrev pub counter_bits_total : ℕ
counter_bits_total = 8192

abbrev pub counter_window_size : ℕ
counter_window_size = counter_bits_total - bits_per_long

abbrev pub backtrack_words : ℕ
backtrack_words = counter_bits_total / bits_per_long

-- U64_MAX - COUNTER_WINDOW_SIZE - 1
abbrev pub reject_after_messages : ℕ
reject_after_messages = 2 ^ 64 - 1 - counter_window_size - 1

-- The bitmap: bit `b` of word `w`. The words are those below `backtrack_words`.
abbrev pub Bitmap : Type 0
Bitmap = ℕ → ℕ → Bool

pub record ReplayCounter : Type 0 where
  pub counter : ℕ
  pub backtrack : Bitmap

-- counter->backtrack[w] = 0
abbrev pub zero_word : Bitmap → ℕ → Bitmap
zero_word bt w v b = if v == w then false else bt v b

-- the set half of test_and_set_bit
abbrev pub set_bit : Bitmap → ℕ → ℕ → Bitmap
set_bit bt w b v c = if (v == w) && (c == b) then true else bt v c

-- The for loop over `i`, with `n` rounds left.
unfoldable pub clear_words : ℕ → ℕ → ℕ → Bitmap → Bitmap
clear_words zero i index_current bt = bt
clear_words (suc n) i index_current bt =
    clear_words n (i + 1) index_current (zero_word bt (u64 (i + index_current) % backtrack_words))

-- The branch for a counter ahead of the window.
unfoldable pub slide : ReplayCounter → ℕ → ReplayCounter
slide c their =
    let index_current = c.counter / bits_per_long in
    let top = min (sub64 (their / bits_per_long) index_current) backtrack_words in
    if ltb c.counter their
    then record { counter = their; backtrack = clear_words top 1 index_current c.backtrack }
    else c

-- test_and_set_bit at the counter's place, and the answer.
unfoldable pub test_and_mark : ReplayCounter → ℕ → Bool × ReplayCounter
test_and_mark c their =
    let w = their / bits_per_long % backtrack_words in
    let b = their % bits_per_long in
    (not (c.backtrack w b), record c { backtrack = set_bit c.backtrack w b })

unfoldable pub counter_validate : ReplayCounter → ℕ → Bool × ReplayCounter
counter_validate c their_counter =
    let their = u64 (their_counter + 1) in
    if leb (reject_after_messages + 1) c.counter || leb reject_after_messages their_counter
    then (false, c)
    else if ltb (u64 (counter_window_size + their)) c.counter
    then (false, c)
    else test_and_mark (slide c their) their

-- kzalloc: no counter seen.
abbrev pub fresh_counter : ReplayCounter
fresh_counter = record { counter = 0; backtrack = λ w b. false }

-- A session's counters in order, with the answer to each.
pub validate_all : ReplayCounter → List ℕ → List Bool
validate_all c [] = []
validate_all c (t ∷ ts) = let (ok, c') = counter_validate c t in ok ∷ validate_all c' ts
