-- ===== src/Replay/Spec.antt =====
-- What replay protection promises, as a log of the accepted counters: no counter twice, and none
-- further than the window behind the highest.
use wireguard_receive_path.Prelude.{
  ℕ, ◌+◌, ◌≤◌, max, Bool, false, not, ◌||◌, ◌&&◌, List, [], ◌∷◌, ltb, leb, ◌==◌, ◌≡◌, refl,
  if◌then◌else◌, arith,
}
use wireguard_receive_path.Replay.{counter_window_size, reject_after_messages}

abbrev pub elem : ℕ → List ℕ → Bool
elem t [] = false
elem t (x ∷ log) = (x == t) || elem t log

-- One more than the highest counter of the log.
abbrev pub next_counter : List ℕ → ℕ
next_counter [] = 0
next_counter (x ∷ log) = max (x + 1) (next_counter log)

unfoldable pub is_fresh : List ℕ → ℕ → Bool
is_fresh log t =
    ltb t reject_after_messages
    && (leb (next_counter log) (counter_window_size + t + 1) && not (elem t log))

unfoldable pub run_log : List ℕ → List ℕ → List Bool
unfolding is_fresh
run_log log [] = []
run_log log (t ∷ ts) = is_fresh log t ∷ run_log (if is_fresh log t then t ∷ log else log) ts

pub elem-lt : (t : ℕ) (log : List ℕ) → next_counter log ≤ t → elem t log ≡ false
elem-lt t [] h = refl
elem-lt t (x ∷ log) h = ground (arith, elem-lt t log)
