-- ===== src/AllowedIps/Answers.antt =====
-- What add (allowedips.c) answers.
use wireguard_receive_path.Prelude.{
  ℕ, ◌≡◌, min, Bool, true, false, ltb, ◌==◌, ◌||◌, not, if◌then◌else◌, Option, none, some, refl,
  Bool-cases, inl, inr, ◌∙◌,
}
use wireguard_receive_path.AllowedIps.{
  Key, Trie, nil, node, common_bits, goes_below, place, has_peer, einval, enomem, Result, done,
  failed, code, add,
}

abbrev is_placed : Option Trie → Bool
is_placed none = false
is_placed (some t) = true

is_placed-lift :
    (r : Option Trie) (g : Trie → Trie)
    → is_placed (elim r [ none ↦ none | some x ↦ some (g x) ]) ≡ is_placed r
is_placed-lift none g = refl
is_placed-lift (some t) g = refl

or-true : (b : Bool) → (b || true) ≡ true
or-true true = refl
or-true false = refl

-- With memory, no walk fails.
place-is_placed :
    (bits : ℕ) (key : Key) (cidr peer : ℕ) (t : Trie)
    → is_placed (place (true, true) bits key cidr peer t) ≡ true
unfolding place
place-is_placed bits key cidr peer nil = refl
place-is_placed bits key cidr peer (node q c n z o) =
    let up = place-is_placed bits key cidr peer o in
    let down = place-is_placed bits key cidr peer z in
    elim (Bool-cases (goes_below bits key cidr c n)) [
      | inr e ↦ simp (e, or-true (cidr == min cidr (common_bits bits n key))) refl
      | inl e ↦ elim (Bool-cases (c == cidr)) [
        | inl here ↦ simp (e, here) refl
        | inr far ↦ elim (Bool-cases (key c)) [
          | inl side ↦
              simp (e, far, side)
                (is_placed-lift (place (true, true) bits key cidr peer o) (λ x. node q c n z x)
                  ∙ up)
          | inr side ↦
              simp (e, far, side)
                (is_placed-lift (place (true, true) bits key cidr peer z) (λ x. node q c n x o)
                  ∙ down)
        ]
      ]
    ]

answer :
    (t : Trie) (r : Option Trie)
    → is_placed r ≡ true
    → let res : Result = elim r [ none ↦ failed enomem t | some t' ↦ done t' ] in code res ≡ none
answer t none h = absurd (cc)
answer t (some t') h = refl

-- With memory for both nodes, add answers EINVAL if there is no peer or the prefix is longer than an
-- address, and 0 otherwise, whatever the trie.
pub add-code :
    (bits : ℕ) (key : Key) (cidr : ℕ) (peer : Option ℕ) (t : Trie)
    → code (add (true, true) bits key cidr peer t)
      ≡ (if not (has_peer peer) || ltb bits cidr then some einval else none)
unfolding add
add-code bits key cidr none t = refl
add-code bits key cidr (some p) t = elim (Bool-cases (ltb bits cidr)) [
  | inl long ↦ simp (long) refl
  | inr short ↦
      simp (short)
        (answer t (place (true, true) bits key cidr p t) (place-is_placed bits key cidr p t))
]
