-- ===== src/Send/Nonces.antt =====
-- The nonces that packets were handed on with, and the walk that gives them out.
use wireguard_receive_path.Prelude.{
  ℕ, ◌+◌, ◌≤◌, ◌<◌, ◌≡◌, Bool, true, false, leb, ◌==◌, ◌&&◌, ◌||◌, Option, none, some, List, [],
  ◌∷◌, update, update_self, subst, arith, Bool-cases, inl, inr, ==_iff, u64,
}
use wireguard_receive_path.Replay.{reject_after_messages}
use wireguard_receive_path.Send.{Skb, Effect, create_data, assign}

-- The pairs of keypair and nonce of some packets, in front of others.
abbrev pub tagged : ℕ → List (Skb × ℕ) → List (ℕ × ℕ) → List (ℕ × ℕ)
tagged k [] l = l
tagged k ((p, n) ∷ ps) l = tagged k ps ((k, n) ∷ l)

-- The keypairs and nonces that packets were handed on with.
abbrev pub used : List Effect → List (ℕ × ℕ)
used [] = []
used (create_data k sent ∷ es) = tagged k sent (used es)
used (_ ∷ es) = used es

abbrev pub is_used : ℕ → ℕ → List (ℕ × ℕ) → Bool
is_used k n [] = false
is_used k n ((k', n') ∷ l) = ((k' == k) && (n' == n)) || is_used k n l

-- No pair stands in the list twice.
abbrev pub IsUnique : List (ℕ × ℕ) → Type 0
IsUnique [] = Unit
IsUnique ((k, n) ∷ l) = (is_used k n l ≡ false) × IsUnique l

-- All nonces are below the counter of their keypair.
abbrev pub IsBelow : (ℕ → ℕ) → List (ℕ × ℕ) → Type 0
IsBelow f l = (k n : ℕ) → is_used k n l ≡ true → n < f k

abbrev pub IsCounted : (ℕ → ℕ) → List (ℕ × ℕ) → Type 0
IsCounted f l = IsUnique l × IsBelow f l

pub IsCounted-raised :
    (f g : ℕ → ℕ) (l : List (ℕ × ℕ)) → ((k : ℕ) → f k ≤ g k) → IsCounted f l → IsCounted g l
IsCounted-raised f g l le (u, b) = (u, (λ k n h. omega (arith, le k, b k n h)))

-- The next nonce of a keypair is not used.
IsCounted-next :
    (f g : ℕ → ℕ) (k c : ℕ) (l : List (ℕ × ℕ))
    → IsCounted f l
    → f k ≡ c
    → ((j : ℕ) → f j ≤ g j)
    → c < g k
    → IsCounted g ((k, c) ∷ l)
IsCounted-next f g k c l (u, b) at le lt = (
  (next, u),
  (λ j n h. elim (Bool-cases ((k == j) && (c == n))) [
    | inl e ↦ subst (λ x. n < g x) ((==_iff k j).0 (ground (arith, e))) (ground (arith, e, lt))
    | inr e ↦ omega (arith, b j n (ground (arith, e, h)), le j)
  ]),
)
  where
    next : is_used k c l ≡ false
    next = elim (Bool-cases (is_used k c l)) [
      | inr e ↦ e
      | inl e ↦ absurd (omega (arith, b k c e, at))
    ]

raised : (f : ℕ → ℕ) (k a b : ℕ) → a ≤ b → (j : ℕ) → update f k a j ≤ update f k b j
raised f k a b le j = ground (arith, le)

-- What the walk over the packets leaves.
abbrev pub IsAssigned :
    (ℕ → ℕ) → ℕ → List (ℕ × ℕ) → (counter : ℕ) → Option (List (Skb × ℕ)) × ℕ → Type 0
IsAssigned f k l counter (none, counter') = counter ≤ counter'
IsAssigned f k l counter (some sent, counter') =
    (counter' ≤ reject_after_messages) × IsCounted (update f k counter') (tagged k sent l)

cons-IsAssigned :
    (f : ℕ → ℕ) (k : ℕ) (p : Skb) (counter : ℕ) (l : List (ℕ × ℕ)) (r : Option (List (Skb × ℕ)) × ℕ)
    → IsAssigned f k ((k, counter) ∷ l) (counter + 1) r
    → IsAssigned f k l counter
        (elim r.0 [ none ↦ none | some sent ↦ some ((p, counter) ∷ sent) ], r.1)
cons-IsAssigned f k p counter l (none, c) h = omega (arith, h)
cons-IsAssigned f k p counter l (some sent, c) h = h

pub assign-IsAssigned :
    (f : ℕ → ℕ) (k : ℕ) (ps : List Skb) (counter : ℕ) (l : List (ℕ × ℕ))
    → counter ≤ reject_after_messages
    → IsCounted (update f k counter) l
    → IsAssigned f k l counter (assign ps counter)
unfolding assign
assign-IsAssigned f k [] counter l le h = (le, h)
assign-IsAssigned f k (p ∷ ps) counter l le h =
    let wrap : u64 (counter + 1) ≡ counter + 1 = omega (arith, le) in
    elim (Bool-cases (leb reject_after_messages counter)) [
      | inl e ↦ simp (e) (omega (arith, wrap))
      | inr e ↦ simp (e) (
          rw wrap (
            cons-IsAssigned f k p counter l (assign ps (counter + 1)) (
              assign-IsAssigned f k ps (counter + 1) ((k, counter) ∷ l) (ground (arith, e)) (
                IsCounted-next (update f k counter) (update f k (counter + 1)) k counter l h
                  (update_self f k counter) (raised f k counter (counter + 1) (omega arith))
                  (omega (arith, update_self f k (counter + 1)))))))
    ]
