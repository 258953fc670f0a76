-- ===== src/PrevQueue/Chain.antt =====
-- The links from `tail` to `head`, and what linking one more node does to them.
use wireguard_receive_path.Prelude.{
  ℕ, true, false, Option, none, some, ◌==◌, ◌||◌, List, [], ◌∷◌, ◌++◌, ◌≡◌, refl, sym, arith,
  update, if◌then◌else◌,
}
use wireguard_receive_path.PrevQueue.{PrevQueue, stub, link}
use wireguard_receive_path.PrevQueue.Fifo.{elem}

-- From `x` the links lead through the nodes of `l`, and end there.
abbrev pub Links : (ℕ → Option ℕ) → ℕ → List ℕ → Type 0
Links next x [] = next x ≡ none
Links next x (y ∷ l) = (next x ≡ some y) × Links next y l

abbrev pub last_of : ℕ → List ℕ → ℕ
last_of x [] = x
last_of x (y ∷ l) = last_of y l

abbrev pub IsDistinct : List ℕ → Type 0
IsDistinct [] = Unit
IsDistinct (x ∷ l) = (elem x l ≡ false) × IsDistinct l

-- The nodes that are packets.
abbrev pub packets : List ℕ → List ℕ
packets [] = []
packets (x ∷ l) = if x == stub then packets l else x ∷ packets l

-- The queue's nodes are `tail` and those of `l`, in this order and each once.
pub record IsChain (q : PrevQueue) (l : List ℕ) : Type 0 where
  pub links : Links q.next q.tail l
  pub last : q.head ≡ last_of q.tail l
  pub distinct : IsDistinct (q.tail ∷ l)

elem-append : (x y : ℕ) (l : List ℕ) → elem x (l ++ (y ∷ [])) ≡ (elem x l || (y == x))
elem-append x y [] = ground arith
elem-append x y (z ∷ l) = ground (arith, elem-append x y l)

pub packets-append :
    (y : ℕ) (l : List ℕ) → (y == stub) ≡ false → packets (l ++ (y ∷ [])) ≡ packets l ++ (y ∷ [])
packets-append y [] h = ground arith
packets-append y (z ∷ l) h = ground (arith, packets-append y l h)

last_of-append : (x y : ℕ) (l : List ℕ) → last_of x (l ++ (y ∷ [])) ≡ y
last_of-append x y [] = refl
last_of-append x y (z ∷ l) = last_of-append z y l

last_of-elem : (x y : ℕ) (l : List ℕ) → elem (last_of x (y ∷ l)) (y ∷ l) ≡ true
last_of-elem x y [] = ground arith
last_of-elem x y (z ∷ l) = ground (arith, last_of-elem y z l)

IsDistinct-append :
    (y : ℕ) (l : List ℕ) → IsDistinct l → elem y l ≡ false → IsDistinct (l ++ (y ∷ []))
IsDistinct-append y [] d h = (refl, tt)
IsDistinct-append y (x ∷ l) d h =
    (ground (arith, elem-append x y l), IsDistinct-append y l d.1 (ground arith))

-- Linking `y` behind the last node, after its own link was cleared.
Links-append :
    (next : ℕ → Option ℕ) (x y : ℕ) (l : List ℕ)
    → Links next x l
    → IsDistinct (x ∷ l)
    → elem y (x ∷ l) ≡ false
    → Links (update (update next y none) (last_of x l) (some y)) x (l ++ (y ∷ []))
Links-append next x y [] h d f = (ground arith, ground arith)
Links-append next x y (z ∷ l) h d f =
    (ground (arith, last_of-elem x z l), Links-append next z y l h.1 d.1 (ground arith))

-- __wg_prev_queue_enqueue adds one node at the end of the chain.
pub link-IsChain :
    (q : PrevQueue) (l : List ℕ) (y : ℕ)
    → IsChain q l
    → elem y (q.tail ∷ l) ≡ false
    → IsChain (link q y) (l ++ (y ∷ []))
unfolding link
link-IsChain q l y c f = record {
  links = rw c.last (Links-append q.next q.tail y l c.links c.distinct f);
  last = sym (last_of-append q.tail y l);
  distinct = IsDistinct-append y (q.tail ∷ l) c.distinct f;
}
