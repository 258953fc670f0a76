-- ===== src/PrevQueue/Refine.antt =====
-- With no producer between its two writes, the linked queue is a bounded first-in first-out queue.
use wireguard_receive_path.Prelude.{
  ℕ, true, false, Option, none, some, ◌==◌, ◌||◌, inl, inr, List, [], ◌∷◌, ◌++◌, ◌≡◌, refl, sym,
  arith, ap, ap₂, ◌∙◌, length, ◌+◌, ◌-◌, length-append, Bool-cases,
}
use wireguard_receive_path.PrevQueue.{
  PrevQueue, stub, max_queued_packets, init, link, enqueue, dequeue_packet, skip_stub, dequeue, Op,
  put, get, queued, got, run,
}
use wireguard_receive_path.PrevQueue.Fifo.{elem, push, pop, run_fifo, IsSingle}
use wireguard_receive_path.PrevQueue.Chain.{packets, IsChain, packets-append, link-IsChain}

-- The queue holds the packets `xs`, oldest first.
pub record Holds (q : PrevQueue) (xs : List ℕ) : Type 0 where
  pub nodes : List ℕ
  pub chain : IsChain q nodes
  pub items : packets (q.tail ∷ nodes) ≡ xs
  pub size : q.count ≡ length xs

pub init-Holds : (links : ℕ → Option ℕ) → Holds (init links) []
unfolding init
init-Holds links = record {
  nodes = [];
  chain = record { links = refl; last = refl; distinct = (refl, tt) };
  items = refl;
  size = refl;
}

elem-packets : (x : ℕ) (l : List ℕ) → (x == stub) ≡ false → elem x (packets l) ≡ elem x l
elem-packets x [] h = refl
elem-packets x (y ∷ l) h = ground (arith, elem-packets x l h)

-- What a call answers, and what it leaves.
pub record Replies {A : Type 0} (spec : A × List ℕ) (out : A × PrevQueue) : Type 0 where
  pub answer : out.0 ≡ spec.0
  pub state : Holds out.1 spec.1

linked-Holds :
    {q : PrevQueue} {xs : List ℕ} (skb : ℕ)
    → Holds q xs
    → (skb == stub) ≡ false
    → elem skb xs ≡ false
    → Holds (link (record q { count = q.count + 1 }) skb) (xs ++ (skb ∷ []))
linked-Holds {q} {xs} skb h packet new = record {
  nodes = h.nodes ++ (skb ∷ []);
  chain =
      link-IsChain (record q { count = q.count + 1 }) h.nodes skb
        (record { links = h.chain.links; last = h.chain.last; distinct = h.chain.distinct })
        (sym (elem-packets skb (q.tail ∷ h.nodes) packet) ∙ ap (elem skb) h.items ∙ new);
  items =
      unfold link in
      (packets-append skb (q.tail ∷ h.nodes) packet ∙ ap (λ l. l ++ (skb ∷ [])) h.items);
  size = unfold link in omega (arith, h.size, length-append xs (skb ∷ []));
}

pub enqueue-Replies :
    {q : PrevQueue} {xs : List ℕ} (skb : ℕ)
    → Holds q xs
    → ((skb == stub) || elem skb xs) ≡ false
    → Replies (push xs skb) (enqueue q skb)
unfolding enqueue push
enqueue-Replies {q} {xs} skb h f = elim (Bool-cases (q.count == max_queued_packets)) [
  | inl full ↦
      let full' : (length xs == max_queued_packets) ≡ true = rw (← h.size) full in
      simp (full, full') (record { answer = refl; state = h })
  | inr room ↦
      let room' : (length xs == max_queued_packets) ≡ false = rw (← h.size) room in
      simp (room, room')
        (record { answer = refl; state = linked-Holds skb h (ground arith) (ground arith) })
]

dequeue_packet-linked :
    (q : PrevQueue) (tail n : ℕ)
    → q.next tail ≡ some n
    → dequeue_packet q tail ≡ (some tail, record q { tail = n; count = q.count - 1 })
unfolding dequeue_packet
dequeue_packet-linked q tail n e = ground arith

-- The last packet leaves the stub behind.
dequeue_packet-last :
    (q : PrevQueue) (tail : ℕ)
    → q.next tail ≡ none
    → q.head ≡ tail
    → dequeue_packet q tail
      ≡ (some tail, (let q' = link q stub in record q' { tail = stub; count = q.count - 1 }))
unfolding dequeue_packet link
dequeue_packet-last q tail e h = ground arith

-- The first node is a packet: it comes out, and the queue holds the rest.
dequeue_packet-Replies :
    (q : PrevQueue) (l : List ℕ)
    → IsChain q l
    → (q.tail == stub) ≡ false
    → q.count ≡ length (q.tail ∷ packets l)
    → Replies (pop (q.tail ∷ packets l)) (dequeue_packet q q.tail)
unfolding pop
dequeue_packet-Replies q [] c packet size =
    rw (dequeue_packet-last q q.tail c.links c.last) (record {
      answer = refl;
      state = record {
        nodes = [];
        chain = record {
          links = (link-IsChain q [] stub c (ground arith)).links.1;
          last = unfold link in refl;
          distinct = (refl, tt);
        };
        items = refl;
        size = omega arith;
      };
    })
dequeue_packet-Replies q (n ∷ l) c packet size =
    rw (dequeue_packet-linked q q.tail n c.links.0) (record {
      answer = refl;
      state = record {
        nodes = l;
        chain = record { links = c.links.1; last = c.last; distinct = c.distinct.1 };
        items = refl;
        size = omega arith;
      };
    })

stub_first :
    (q : PrevQueue) (l : List ℕ)
    → IsChain q l
    → (q.tail == stub) ≡ true
    → q.count ≡ length (packets l)
    → Replies (pop (packets l)) (skip_stub q (q.next q.tail))
unfolding skip_stub pop
stub_first q [] c e size = simp c.links (record {
  answer = refl;
  state = record { nodes = []; chain = c; items = simp e refl; size = size };
})
stub_first q (n ∷ l) c e size =
    simp (c.links.0, packet)
      (dequeue_packet-Replies (record q { tail = n }) l rest packet (rw packet at size))
  where
    packet : (n == stub) ≡ false
    packet = ground (arith, c.distinct.0)

    rest : IsChain (record q { tail = n }) l
    rest = record { links = c.links.1; last = c.last; distinct = c.distinct.1 }

-- wg_prev_queue_dequeue answers with the oldest packet, or NULL if there is none.
pub dequeue-Replies : {q : PrevQueue} {xs : List ℕ} → Holds q xs → Replies (pop xs) (dequeue q)
unfolding dequeue
dequeue-Replies {q} {xs} h = elim (Bool-cases (q.tail == stub)) [
  | inl e ↦
      rw (← h.items, e)
        (stub_first q h.nodes h.chain e (rw e at (h.size ∙ ap length (sym h.items))))
  | inr e ↦
      rw (← h.items, e)
        (dequeue_packet-Replies q h.nodes h.chain e (rw e at (h.size ∙ ap length (sym h.items))))
]

-- From a queue that holds `xs`, a sequence of wg_prev_queue_enqueue and wg_prev_queue_dequeue calls
-- answers as the bounded first-in first-out queue does, if no packet is queued twice at once.
pub run_refines :
    (ops : List Op) (q : PrevQueue) (xs : List ℕ)
    → Holds q xs
    → IsSingle xs ops
    → run q ops ≡ run_fifo xs ops
unfolding run run_fifo
run_refines [] q xs h s = refl
run_refines (put x ∷ ops) q xs h (new, s) =
    let r = enqueue-Replies x h new in
    ap₂ (λ a l. queued a ∷ l) r.answer (run_refines ops (enqueue q x).1 (push xs x).1 r.state s)
run_refines (get ∷ ops) q xs h s =
    let r = dequeue-Replies h in
    ap₂ (λ a l. got a ∷ l) r.answer (run_refines ops (dequeue q).1 (pop xs).1 r.state s)
