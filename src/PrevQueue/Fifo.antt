-- ===== src/PrevQueue/Fifo.antt =====
-- A bounded queue of packets, oldest first.
use wireguard_receive_path.Prelude.{
  ℕ, ◌≡◌, Bool, true, false, Option, none, some, ◌==◌, ◌||◌, if◌then◌else◌, List, [], ◌∷◌, ◌++◌,
  length,
}
use wireguard_receive_path.PrevQueue.{max_queued_packets, Op, put, get, Reply, queued, got}

abbrev pub elem : ℕ → List ℕ → Bool
elem x [] = false
elem x (y ∷ l) = (y == x) || elem x l

unfoldable pub push : List ℕ → ℕ → Bool × List ℕ
push l x = if length l == max_queued_packets then (false, l) else (true, l ++ (x ∷ []))

unfoldable pub pop : List ℕ → Option ℕ × List ℕ
pop [] = (none, [])
pop (x ∷ l) = (some x, l)

unfoldable pub run_fifo : List ℕ → List Op → List Reply
unfolding push pop
run_fifo l [] = []
run_fifo l (put x ∷ ops) = let (done, l') = push l x in queued done ∷ run_fifo l' ops
run_fifo l (get ∷ ops) = let (out, l') = pop l in got out ∷ run_fifo l' ops

-- No packet is queued while it is in the queue, and none has the address of the stub.
abbrev pub IsSingle : List ℕ → List Op → Type 0
IsSingle l [] = Unit
IsSingle l (put x ∷ ops) = (((x == 0) || elem x l) ≡ false) × IsSingle (push l x).1 ops
IsSingle l (get ∷ ops) = IsSingle (pop l).1 ops
