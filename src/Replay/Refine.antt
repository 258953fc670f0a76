-- ===== src/Replay/Refine.antt =====
-- The bitmap of counter_validate holds exactly the accepted counters of the window.
use wireguard_receive_path.Prelude.{
  ℕ, ◌+◌, ◌-◌, ◌/◌, ◌%◌, ◌≤◌, ◌<◌, ◌≡◌, ◌∙◌, refl, ap₂, Bool, true, false, not, ◌==◌, arith,
  Bool-cases, inl, inr, ==_iff, u64, sub64, min, ltb, leb, List, [], ◌∷◌, ap, sym, max, ◌||◌,
  if◌then◌else◌,
}
use wireguard_receive_path.Replay.{
  Bitmap, ReplayCounter, backtrack_words, bits_per_long, counter_window_size, reject_after_messages,
  clear_words, slide, test_and_mark, counter_validate, fresh_counter, validate_all,
}
use wireguard_receive_path.Replay.Spec.{elem, next_counter, is_fresh, run_log, elem-lt}
use wireguard_receive_path.Replay.Clear.{clear_words-hit, clear_words-miss}

-- The bit at which a counter is remembered, given as the incremented counter.
abbrev bit_of : Bitmap → ℕ → Bool
bit_of bt n = bt (n / bits_per_long % backtrack_words) (n % bits_per_long)

-- The state of the C code after the counters of `log` were accepted.
pub record Tracks (c : ReplayCounter) (log : List ℕ) : Type 0 where
  pub high : c.counter ≡ next_counter log
  pub small : c.counter ≤ reject_after_messages
  pub bits :
      (t : ℕ)
      → (t + 1) / bits_per_long ≤ c.counter / bits_per_long
      → c.counter ≤ t + 1 + counter_window_size
      → bit_of c.backtrack (t + 1) ≡ elem t log

pub fresh_counter-Tracks : Tracks fresh_counter []
fresh_counter-Tracks = record { high = refl; small = omega arith; bits = λ t h k. refl }

-- How many words the loop clears for a jump from `old` to `their`.
abbrev rounds : ℕ → ℕ → ℕ
rounds old their = min (sub64 (their / bits_per_long) (old / bits_per_long)) backtrack_words

-- The words of the window behind `their` that were in use before the jump are left alone.
slide-old :
    (old their t : ℕ) (bt : Bitmap)
    → old < their
    → their ≤ reject_after_messages
    → (t + 1) / bits_per_long ≤ old / bits_per_long
    → their ≤ t + 1 + counter_window_size
    → bit_of (clear_words (rounds old their) 1 (old / bits_per_long) bt) (t + 1) ≡ bit_of bt (t + 1)
slide-old old their t bt lt small in_use near =
    clear_words-miss (rounds old their) 1 (old / bits_per_long) bt _ _ (λ k lo hi. omega arith)

slide-new :
    (old their t : ℕ) (bt : Bitmap)
    → old < their
    → their ≤ reject_after_messages
    → old / bits_per_long < (t + 1) / bits_per_long
    → (t + 1) / bits_per_long ≤ their / bits_per_long
    → bit_of (clear_words (rounds old their) 1 (old / bits_per_long) bt) (t + 1) ≡ false
slide-new old their t bt lt small above below =
    clear_words-hit (rounds old their) 1 (old / bits_per_long) bt _ _
      (((t + 1) / bits_per_long - old / bits_per_long - 1) % backtrack_words + 1) (omega arith)
      (omega arith) (omega arith)

-- What the jump leaves: the window moved up to `their`, with the same log.
record Moved (c : ReplayCounter) (their : ℕ) (log : List ℕ) : Type 0 where
  top : c.counter ≡ max their (next_counter log)
  small : c.counter ≤ reject_after_messages
  bits :
      (t : ℕ)
      → (t + 1) / bits_per_long ≤ c.counter / bits_per_long
      → c.counter ≤ t + 1 + counter_window_size
      → bit_of c.backtrack (t + 1) ≡ elem t log

slide-Moved :
    (c : ReplayCounter) (their : ℕ) (log : List ℕ)
    → Tracks c log
    → their ≤ reject_after_messages
    → Moved (slide c their) their log
unfolding slide
slide-Moved c their log inv small = elim (Bool-cases (ltb c.counter their)) [
  | inl ahead ↦ rw ahead (record {
    top = ground (arith, inv.high);
    small = small;
    bits = λ t in_use near.
        elim (Bool-cases (leb ((t + 1) / bits_per_long) (c.counter / bits_per_long))) [
          | inl old ↦
              slide-old c.counter their t c.backtrack (ground arith) small (ground arith) near
              ∙ inv.bits t (ground arith) (ground arith)
          | inr new ↦
              slide-new c.counter their t c.backtrack (ground arith) small (ground arith) in_use
              ∙ sym (elem-lt t log (ground (arith, inv.high)))
        ];
  })
  | inr behind ↦
      rw behind (record { top = ground (arith, inv.high); small = inv.small; bits = inv.bits })
]

-- Two counters of one window have different bits.
same_bit :
    (top m n : ℕ)
    → m / bits_per_long ≤ top / bits_per_long
    → n / bits_per_long ≤ top / bits_per_long
    → top ≤ m + counter_window_size
    → top ≤ n + counter_window_size
    → m / bits_per_long % backtrack_words ≡ n / bits_per_long % backtrack_words
    → m % bits_per_long ≡ n % bits_per_long
    → m ≡ n
same_bit top m n hm hn nm nn w b = omega arith

module _ (c : ReplayCounter) (t : ℕ) (log : List ℕ) (moved : Moved c (t + 1) log) where
  module _ (near : c.counter ≤ t + 1 + counter_window_size) where
    answer : (test_and_mark c (t + 1)).0 ≡ not (elem t log)
    unfolding test_and_mark
    answer = ap not (moved.bits t (ground (arith, moved.top)) near)

    marked_bit :
        (s : ℕ)
        → (s + 1) / bits_per_long ≤ c.counter / bits_per_long
        → c.counter ≤ s + 1 + counter_window_size
        → bit_of (test_and_mark c (t + 1)).1.backtrack (s + 1) ≡ ((t == s) || elem s log)
    unfolding test_and_mark
    marked_bit s in_use close = ground (
      arith,
      moved.top,
      moved.bits s in_use close,
      same_bit c.counter (s + 1) (t + 1) in_use (omega (arith, moved.top)) close near,
    )

-- Marking again a counter that is in the log changes no answer.
elem_self : (t s : ℕ) (log : List ℕ) → elem t log ≡ true → ((t == s) || elem s log) ≡ elem s log
elem_self t s log h = elim (Bool-cases (t == s)) [
  | inl same ↦ ground (arith, ap (λ k. elem k log) ((==_iff t s).0 same))
  | inr other ↦ rw other
]

-- What one call leaves, by its answer.
pub record Answered (log : List ℕ) (t : ℕ) (out : Bool × ReplayCounter) : Type 0 where
  pub answer : out.0 ≡ is_fresh log t
  pub state : Tracks out.1 (if is_fresh log t then t ∷ log else log)

module _ (c : ReplayCounter) (t : ℕ) (log : List ℕ) (moved : Moved c (t + 1) log) where
  module _ (near : c.counter ≤ t + 1 + counter_window_size)
      (sound : t < reject_after_messages) where
    is_fresh-eq : is_fresh log t ≡ not (elem t log)
    unfolding is_fresh
    is_fresh-eq = ground (arith, moved.top)

    test_and_mark-Answered : Answered log t (test_and_mark c (t + 1))
    unfolding test_and_mark
    test_and_mark-Answered = elim (Bool-cases (elem t log)) [
      | inl old ↦ record {
        answer = answer c t log moved near ∙ sym is_fresh-eq;
        state =
            rw (is_fresh-eq, old)
              (record {
                high = ground (arith, moved.top, elem-lt t log);
                small = moved.small;
                bits = λ s in_use close.
                    marked_bit c t log moved near s in_use close ∙ elem_self t s log old;
              });
      }
      | inr new ↦ record {
        answer = answer c t log moved near ∙ sym is_fresh-eq;
        state =
            rw (is_fresh-eq, new)
              (record {
                high = moved.top;
                small = moved.small;
                bits = λ s in_use close. marked_bit c t log moved near s in_use close;
              });
      }
    ]

rejected :
    {c : ReplayCounter} {log : List ℕ} (t : ℕ)
    → Tracks c log
    → is_fresh log t ≡ false
    → Answered log t (false, c)
rejected t inv stale = record { answer = sym stale; state = rw stale inv }

-- Below the limit no addition of the C code wraps.
no_wrap :
    (t : ℕ)
    → t < reject_after_messages
    → (u64 (t + 1) ≡ t + 1) × (u64 (counter_window_size + (t + 1)) ≡ counter_window_size + (t + 1))
no_wrap t sound = omega arith

pub counter_validate-Answered :
    {c : ReplayCounter} {log : List ℕ} (t : ℕ)
    → Tracks c log
    → Answered log t (counter_validate c t)
unfolding counter_validate is_fresh
counter_validate-Answered {c} {log} t inv = elim (Bool-cases (leb reject_after_messages t)) [
  | inl late ↦ rw (late, full) (rejected t inv (ground arith))
  | inr sound ↦
      rw (sound, full, (no_wrap t (ground arith)).0, (no_wrap t (ground arith)).1)
        (elim (Bool-cases (ltb (counter_window_size + (t + 1)) c.counter)) [
          | inl far ↦ rw far (rejected t inv (ground (arith, inv.high)))
          | inr near ↦
              let moved = slide-Moved c (t + 1) log inv (ground arith) in
              rw near (
                test_and_mark-Answered (slide c (t + 1)) t log moved
                  (ground (arith, moved.top, inv.high)) (ground arith))
        ])
]
  where
    full : leb (reject_after_messages + 1) c.counter ≡ false
    full = ground (arith, inv.small)

-- From a state that tracks a log, a sequence of calls of counter_validate on any counters returns
-- exactly the answers of that log: true for a counter below the limit that the log does not hold
-- and that is at most the window behind the highest, false for all others.
pub validate_all_refines :
    (ts : List ℕ) (c : ReplayCounter) (log : List ℕ)
    → Tracks c log
    → validate_all c ts ≡ run_log log ts
unfolding validate_all run_log
validate_all_refines [] c log inv = refl
validate_all_refines (t ∷ ts) c log inv =
    let a = counter_validate-Answered t inv in
    ap₂ ◌∷◌ a.answer (validate_all_refines ts (counter_validate c t).1 _ a.state)

-- The state after some calls, whatever their answers.
abbrev pub feed : ReplayCounter → List ℕ → ReplayCounter
feed c [] = c
feed c (t ∷ ts) = feed (counter_validate c t).1 ts

elem-feed :
    (ts : List ℕ) (c : ReplayCounter) (log : List ℕ) (t : ℕ)
    → Tracks c log
    → elem t log ≡ true
    → (counter_validate (feed c ts) t).0 ≡ false
elem-feed [] c log t inv held = (counter_validate-Answered t inv).answer ∙ stale
  where
    stale : is_fresh log t ≡ false
    stale = unfold is_fresh in ground arith
elem-feed (s ∷ ts) c log t inv held =
    elem-feed ts (counter_validate c s).1 _ t (counter_validate-Answered s inv).state still
  where
    still : elem t (if is_fresh log s then s ∷ log else log) ≡ true
    still = ground arith

-- From a state that tracks a log, a counter that counter_validate accepts is rejected ever after,
-- whatever counters come in between.
pub counter_validate-accepts_once :
    (c : ReplayCounter) (log : List ℕ) (t : ℕ) (ts : List ℕ)
    → Tracks c log
    → (counter_validate c t).0 ≡ true
    → (counter_validate (feed (counter_validate c t).1 ts) t).0 ≡ false
counter_validate-accepts_once c log t ts inv accepted =
    elem-feed ts (counter_validate c t).1 _ t (counter_validate-Answered t inv).state now
  where
    now : elem t (if is_fresh log t then t ∷ log else log) ≡ true
    now = ground (arith, (counter_validate-Answered t inv).answer)
