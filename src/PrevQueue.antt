-- ===== src/PrevQueue.antt =====
-- The queue of linux-source/drivers/net/wireguard/queueing.c: many producers, one consumer, a
-- list through the packets with a stub node.
pub mod Fifo
pub mod Chain
pub mod Refine
mod Tests
use wireguard_receive_path.Prelude.{
  ℕ, zero, suc, ◌+◌, ◌-◌, Bool, true, false, Option, none, some, ◌==◌, if◌then◌else◌, update, List,
  [], ◌∷◌,
}

abbrev pub max_queued_packets : ℕ
max_queued_packets = 1024

-- A pointer is a number; the address of `queue->empty` is 0, and NULL is `none`.
abbrev pub stub : ℕ
stub = 0

-- struct prev_queue, with the field `prev` of every packet, which links it to the next.
pub record PrevQueue : Type 0 where
  pub head : ℕ
  pub tail : ℕ
  pub peeked : Option ℕ
  pub next : ℕ → Option ℕ
  pub count : ℕ

-- wg_prev_queue_init: the links of packets outside the queue are left alone.
unfoldable pub init : (ℕ → Option ℕ) → PrevQueue
init links = record {
  head = stub;
  tail = stub;
  peeked = none;
  next = update links stub none;
  count = 0;
}

-- __wg_prev_queue_enqueue
unfoldable pub link : PrevQueue → ℕ → PrevQueue
link q skb = record q { head = skb; next = update (update q.next skb none) q.head (some skb) }

unfoldable pub enqueue : PrevQueue → ℕ → Bool × PrevQueue
unfolding link
enqueue q skb =
    if q.count == max_queued_packets
    then (false, q)
    else (true, link (record q { count = q.count + 1 }) skb)

-- The part of the dequeue that returns `tail` if its link is there.
unfoldable pub take_linked : PrevQueue → ℕ → Option ℕ → Option (Option ℕ × PrevQueue)
take_linked q tail none = none
take_linked q tail (some next) = some (some tail, record q { tail = next; count = q.count - 1 })

-- The last packet: the stub is queued behind it, then it is taken.
unfoldable pub take_last : PrevQueue → ℕ → Option ℕ × PrevQueue
unfolding take_linked link
take_last q tail =
    if tail == q.head
    then (let q' = link q stub in
        elim (take_linked q' tail (q'.next tail)) [ none ↦ (none, q') | some out ↦ out ])
    else (none, q)

-- Below the stub: `tail` is a packet.
unfoldable pub dequeue_packet : PrevQueue → ℕ → Option ℕ × PrevQueue
unfolding take_linked take_last
dequeue_packet q tail = elim (take_linked q tail (q.next tail)) [
  | none ↦ take_last q tail
  | some out ↦ out
]

-- tail == STUB(queue): step over it.
unfoldable pub skip_stub : PrevQueue → Option ℕ → Option ℕ × PrevQueue
unfolding dequeue_packet
skip_stub q none = (none, q)
skip_stub q (some next) = dequeue_packet (record q { tail = next }) next

unfoldable pub dequeue : PrevQueue → Option ℕ × PrevQueue
unfolding skip_stub dequeue_packet
dequeue q = if q.tail == stub then skip_stub q (q.next q.tail) else dequeue_packet q q.tail

pub data Op : Type 0 where
  put : (skb : ℕ) → Op
  get : Op

-- What a caller sees: whether the packet was queued, or which packet came out.
pub data Reply : Type 0 where
  queued : Bool → Reply
  got : Option ℕ → Reply

unfoldable pub run : PrevQueue → List Op → List Reply
run q [] = []
run q (put x ∷ ops) = let (done, q') = enqueue q x in queued done ∷ run q' ops
run q (get ∷ ops) = let (out, q') = dequeue q in got out ∷ run q' ops
