-- ===== src/PrevQueue/Tests.antt =====
-- A short sequence of calls on the linked queue.
use wireguard_receive_path.Prelude.{true, none, some, List, [], ◌∷◌, ◌≡◌, refl}
use wireguard_receive_path.PrevQueue.{init, enqueue, dequeue, Op, put, get, queued, got, run}
use wireguard_receive_path.PrevQueue.Fifo.{run_fifo}
use wireguard_receive_path.PrevQueue.Refine.{init-Holds, run_refines}

-- A packet may be queued again after it came out.
abbrev calls : List Op
calls = get ∷ put 5 ∷ put 6 ∷ get ∷ put 5 ∷ get ∷ get ∷ get ∷ put 9 ∷ get ∷ []

calls_run :
    run (init (λ _. some 3)) calls
    ≡ got none
      ∷ queued true
      ∷ queued true
      ∷ got (some 5)
      ∷ queued true
      ∷ got (some 6)
      ∷ got (some 5)
      ∷ got none
      ∷ queued true
      ∷ got (some 9)
      ∷ []
unfolding run init enqueue dequeue
calls_run = refl

run_refines_example : run (init (λ _. some 3)) calls ≡ run_fifo [] calls
unfolding run_fifo
run_refines_example =
    run_refines calls (init (λ _. some 3)) [] (init-Holds (λ _. some 3))
      (refl, (refl, (refl, (refl, tt))))
