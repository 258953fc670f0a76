-- ===== src/Replay/Clear.antt =====
-- Which words the clearing loop of counter_validate empties.
use wireguard_receive_path.Prelude.{
  ℕ, zero, suc, ◌+◌, ◌%◌, ◌≤◌, ◌<◌, ◌≡◌, ◌≢◌, ◌∙◌, refl, false, ◌==◌, arith, Bool-cases, inl, inr,
  ==_iff, u64,
}
use wireguard_receive_path.Replay.{Bitmap, backtrack_words, clear_words}

-- A word that is empty stays empty.
clear_words-keeps_empty :
    (n i cur : ℕ) (bt : Bitmap) (w b : ℕ) → bt w b ≡ false → clear_words n i cur bt w b ≡ false
unfolding clear_words
clear_words-keeps_empty zero i cur bt w b h = h
clear_words-keeps_empty (suc n) i cur bt w b h =
    clear_words-keeps_empty n (i + 1) cur _ w b (ground arith)

pub clear_words-hit :
    (n i cur : ℕ) (bt : Bitmap) (w b k : ℕ)
    → i ≤ k
    → k < i + n
    → u64 (k + cur) % backtrack_words ≡ w
    → clear_words n i cur bt w b ≡ false
unfolding clear_words
clear_words-hit zero i cur bt w b k lo hi e = absurd (omega arith)
clear_words-hit (suc n) i cur bt w b k lo hi e = elim (Bool-cases (k == i)) [
  | inl here ↦ clear_words-keeps_empty n (i + 1) cur _ w b (ground (arith, ==_iff k i))
  | inr later ↦ clear_words-hit n (i + 1) cur _ w b k (ground arith) (omega arith) e
]

pub clear_words-miss :
    (n i cur : ℕ) (bt : Bitmap) (w b : ℕ)
    → ((k : ℕ) → i ≤ k → k < i + n → u64 (k + cur) % backtrack_words ≢ w)
    → clear_words n i cur bt w b ≡ bt w b
unfolding clear_words
clear_words-miss zero i cur bt w b h = refl
clear_words-miss (suc n) i cur bt w b h =
    clear_words-miss n (i + 1) cur _ w b (λ k lo hi. h k (omega arith) (omega arith))
    ∙ ground (arith, h i)
