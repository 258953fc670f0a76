-- ===== src/Wake/Inv/Polls.antt =====
-- Every step of the poll leads from its phase to the next one.
use wireguard_receive_path.Prelude.{
  ℕ, Bool, true, false, ◌≡◌, ◌⊎◌, inl, inr, Option, none, some, refl, arith, sym, ap, ◌∙◌,
  Option-cases, ◌||◌, not, List, [], ◌∷◌,
}
use wireguard_receive_path.Wake.{PacketState, is_uncrypted, Knobs, Peer}
use wireguard_receive_path.Wake.Job.{JobPc, linking}
use wireguard_receive_path.Wake.Poll.{peek, peek_head, peek_rest, is_ready, address_of}
use wireguard_receive_path.Wake.Inv
use wireguard_receive_path.Wake

-- A NULL from the dequeue means an empty queue, or a producer between its two writes.
abbrev pub NoneSeen : Peer → (ℕ → JobPc) → Type 0
NoneSeen s jobs = s.peeked ≡ none → (s.linked ≡ []) ⊎ ((p : ℕ) × (jobs p ≡ linking))

unseen : (o : Option ℕ) (l : List ℕ) → peek_head true o l ≡ none → peek_rest true o l ≡ []
unfolding peek_head peek_rest
unseen (some p) l e = cc
unseen none [] e = refl
unseen none (p ∷ l) e = cc

pub peek-NoneSeen :
    (sees : Bool) (s : Peer) (jobs : ℕ → JobPc)
    → (sees ≡ true) ⊎ ((p : ℕ) × (jobs p ≡ linking))
    → NoneSeen (peek sees s) jobs
peek-NoneSeen sees s jobs (inr busy) n = inr busy
peek-NoneSeen true s jobs (inl e) n = inl (unseen s.peeked s.linked n)
peek-NoneSeen false s jobs (inl e) n = cc

peek-head_empty :
    (sees : Bool) (o : Option ℕ) (l : List ℕ)
    → o ≡ none
    → l ≡ []
    → (peek_head sees o l ≡ none) × (peek_rest sees o l ≡ [])
unfolding peek_head peek_rest
peek-head_empty sees (some p) l a b = absurd (cc a)
peek-head_empty sees none [] a b = (refl, refl)
peek-head_empty sees none (p ∷ l) a b = absurd (cc b)

-- The packet that a peek shows, and those that it leaves, were queued.
pub peek-head_job :
    (sees : Bool) (o : Option ℕ) (l : List ℕ) (p : ℕ)
    → peek_head sees o l ≡ some p
    → (o ≡ some p) ⊎ (Inv.elem p l ≡ true)
unfolding peek_head
peek-head_job sees (some q) l p e = inl e
peek-head_job sees none [] p e = absurd (cc e)
peek-head_job true none (q ∷ l) p e = inr (ground arith)
peek-head_job false none (q ∷ l) p e = absurd (cc e)

pub peek-rest_job :
    (sees : Bool) (o : Option ℕ) (l : List ℕ) (p : ℕ)
    → Inv.elem p (peek_rest sees o l) ≡ true
    → Inv.elem p l ≡ true
unfolding peek_rest
peek-rest_job sees (some q) l p e = e
peek-rest_job sees none [] p e = e
peek-rest_job true none (q ∷ l) p e = ground arith
peek-rest_job false none (q ∷ l) p e = e

peek_head-some :
    (sees : Bool) (o : Option ℕ) (l : List ℕ) {p : ℕ} → o ≡ some p → peek_head sees o l ≡ o
unfolding peek_head
peek_head-some sees (some q) l e = refl
peek_head-some sees none l e = absurd (cc e)

module _ (k : Knobs) (sees : Bool) (s : Peer) (jobs : ℕ → JobPc) where
  pub peek-IsWatched : Inv.IsWatched k s jobs → Inv.IsWatched k (peek sees s) jobs
  peek-IsWatched (inl (a, b, lets)) =
      let (a', b') = peek-head_empty sees s.peeked s.linked a b in inl (a', b', lets)
  peek-IsWatched (inr w) = inr w

  pub peek-IsCovered : Inv.IsCovered k s jobs → Inv.IsCovered k (peek sees s) jobs
  peek-IsCovered (inl w) = inl (peek-IsWatched w)
  peek-IsCovered (inr m) = inr m

  pub peek_lets : Inv.LetsHead k s → Inv.LetsHead k (peek sees s)
  peek_lets (inl h) = inl h
  peek_lets (inr (inl b)) = inr (inl b)
  peek_lets (inr (inr b)) = elim (Option-cases s.peeked) [
    | inl e ↦ inr (inl (b ∙ ap (address_of s.address) e))
    | inr (p, e) ↦
        inr (inr (b ∙ ap (address_of s.address) (sym (peek_head-some sees s.peeked s.linked e))))
  ]

-- A head that is not ready, or not there, is watched by a job that rx_blocked_on lets through.
module _ (k : Knobs) (s : Peer) (jobs : ℕ → JobPc)
    (unset : (p : ℕ) → is_uncrypted (s.state p) ≡ true → Inv.is_unset (jobs p) ≡ true)
    (head_job : (p : ℕ) → s.peeked ≡ some p → Inv.is_absent (jobs p) ≡ false) where
  lets_none : s.peeked ≡ none → Inv.LetsHead k s → (k.headwake ≡ false) ⊎ (s.blocked_on ≡ none)
  lets_none e (inl h) = inl h
  lets_none e (inr (inl b)) = inr b
  lets_none e (inr (inr b)) = inr (b ∙ ap (address_of s.address) e)

  lets_linking :
      (p : ℕ)
      → jobs p ≡ linking
      → (k.headwake ≡ false) ⊎ (s.blocked_on ≡ none)
      → Inv.will_wake k s.blocked_on (s.address p) (jobs p) ≡ true
  lets_linking p link (inl h) = ground arith
  lets_linking p link (inr b) = ground arith

  lets_some :
      (p : ℕ)
      → s.peeked ≡ some p
      → Inv.LetsHead k s
      → (not k.headwake || Wake.Job.names_head s.blocked_on (s.address p)) ≡ true
  lets_some p e (inl h) = ground arith
  lets_some p e (inr (inl b)) = ground arith
  lets_some p e (inr (inr b)) =
      let named : s.blocked_on ≡ some (s.address p) = b ∙ ap (address_of s.address) e in
      ground arith

  is_blocked-IsWatched :
      (p : ℕ)
      → s.peeked ≡ some p
      → is_uncrypted (s.state p) ≡ true
      → Inv.LetsHead k s
      → Inv.IsWatched k s jobs
  is_blocked-IsWatched p e u lets =
      inr (p, ground (arith, unset p u, head_job p e, lets_some p e lets))

  pub is_ready-IsWatched :
      NoneSeen s jobs → Inv.LetsHead k s → is_ready s ≡ false → Inv.IsWatched k s jobs
  is_ready-IsWatched none_seen lets r = elim (Option-cases s.peeked) [
    | inl e ↦ elim (none_seen e) [
      | inl l ↦ inl (e, l, lets_none e lets)
      | inr (p, link) ↦ inr (p, lets_linking p link (lets_none e lets))
    ]
    | inr (p, e) ↦ is_blocked-IsWatched p e (ground arith) lets
  ]
