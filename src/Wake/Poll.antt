-- ===== src/Wake/Poll.antt =====
-- wg_packet_rx_poll as the single consumer of one peer's queue, a shared access at a time.
use wireguard_receive_path.Prelude.{
  ℕ, ◌+◌, Bool, true, false, ◌&&◌, not, Option, none, some, List, [], ◌∷◌, leb, ◌==◌, if◌then◌else◌,
}
use wireguard_receive_path.Napi.{napi_complete_done}
use wireguard_receive_path.Wake.{PacketState, is_uncrypted, Knobs, Peer}

-- Where the poll stands. `work` is work_done.
pub data PollPc : Type 0 where
  parked : PollPc  -- no poll runs
  deliver : (work : ℕ) → PollPc  -- the test of the while loop
  steal : (work : ℕ) → PollPc  -- the work-stealing part, and the goto back
  publish : (work : ℕ) → PollPc  -- before the look at the head
  store : (work : ℕ) (head : Option ℕ) → PollPc  -- before WRITE_ONCE(peer->rx_blocked_on, head)
  recheck : (work : ℕ) → PollPc  -- before the second look at the head
  supp_test : (work : ℕ) → PollPc
  supp_clear : (work : ℕ) → PollPc  -- before clear_bit(NAPI_STATE_MISSED)
  supp_recheck : (work : ℕ) → PollPc
  complete : (work : ℕ) → PollPc  -- before napi_complete_done

-- wg_prev_queue_peek. While a producer stands between its exchange and its link, the dequeue may
-- answer NULL though packets are queued: `sees` is false then.
unfoldable pub peek_head : Bool → Option ℕ → List ℕ → Option ℕ
peek_head sees (some p) l = some p
peek_head sees none [] = none
peek_head sees none (p ∷ l) = if sees then some p else none

unfoldable pub peek_rest : Bool → Option ℕ → List ℕ → List ℕ
peek_rest sees (some p) l = l
peek_rest sees none [] = []
peek_rest sees none (p ∷ l) = if sees then l else p ∷ l

abbrev pub peek : Bool → Peer → Peer
peek sees s = record s {
  peeked = peek_head sees s.peeked s.linked;
  linked = peek_rest sees s.peeked s.linked;
}

-- The pointer to a packet, or NULL
abbrev pub address_of : (ℕ → ℕ) → Option ℕ → Option ℕ
address_of address none = none
address_of address (some p) = some (address p)

-- head && state(head) is not UNCRYPTED
abbrev pub ready_at : Option ℕ → (ℕ → PacketState) → Bool
ready_at none state = false
ready_at (some p) state = not (is_uncrypted (state p))

abbrev pub is_ready : Peer → Bool
is_ready s = ready_at s.peeked s.state

-- head && state(head) is UNCRYPTED
abbrev pub blocked_at : Option ℕ → (ℕ → PacketState) → Bool
blocked_at none state = false
blocked_at (some p) state = is_uncrypted (state p)

abbrev pub is_blocked : Peer → Bool
is_blocked s = blocked_at s.peeked s.state

abbrev pub set_missed : Bool → Peer → Peer
set_missed b s = let n = s.napi in record s { napi = record n { missed = b } }

-- budget is used up: the poll returns and net_rx_action lists NAPI again.
abbrev pub relist : Peer → Peer
relist s = let n = s.napi in record s { napi = record n { listed = true } }

-- Where the code goes after the loop and after the headwake part.
abbrev pub after_publish : Knobs → ℕ → PollPc
after_publish k work = if k.supp then supp_test work else complete work

abbrev pub after_steal : Knobs → ℕ → PollPc
after_steal k work = if k.headwake then publish work else after_publish k work

-- `pulled`: the stealing part decrypted a packet from the device ring. Those jobs are steps of the
-- packets' own threads here.
unfoldable pub poll_step : Knobs → ℕ → (sees pulled : Bool) → PollPc → Peer → Peer × PollPc
unfolding peek_head peek_rest
poll_step k budget sees pulled parked s = (s, parked)
poll_step k budget sees pulled (deliver work) s =
    let s' = peek sees s in
    if is_ready s'
    then if leb budget (work + 1)
      then (relist (record s' { peeked = none }), parked)
      else (record s' { peeked = none }, deliver (work + 1))
    else (s', if k.steal == 0 then after_steal k work else steal work)
poll_step k budget sees pulled (steal work) s =
    let s' = peek sees s in (s', if pulled && is_ready s' then deliver work else after_steal k work)
poll_step k budget sees pulled (publish work) s =
    let s' = peek sees s in (s', store work (address_of s'.address s'.peeked))
poll_step k budget sees pulled (store work head) s = (record s { blocked_on = head }, recheck work)
poll_step k budget sees pulled (recheck work) s =
    let s' = peek sees s in (if is_ready s' then set_missed true s' else s', after_publish k work)
poll_step k budget sees pulled (supp_test work) s =
    let s' = peek sees s in (s', if is_blocked s' then supp_clear work else complete work)
poll_step k budget sees pulled (supp_clear work) s = (set_missed false s, supp_recheck work)
poll_step k budget sees pulled (supp_recheck work) s =
    let s' = peek sees s in (if is_ready s' then set_missed true s' else s', complete work)
poll_step k budget sees pulled (complete work) s =
    (record s { napi = (napi_complete_done s.napi work).1 }, parked)

-- net_rx_action takes NAPI off the list and calls the poll.
unfoldable pub poll_start : Peer → Peer × PollPc
poll_start s =
    let n = s.napi in
    (
      record s { napi = record n { listed = false; sched_threaded = false }; rx_ready = 0 },
      deliver 0,
    )
