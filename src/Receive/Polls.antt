-- ===== src/Receive/Polls.antt =====
-- The delivery loop over all polls of a peer's life.
use wireguard_receive_path.Prelude.{
  ℕ, ◌+◌, ◌≡◌, leb, not, List, [], ◌∷◌, Bool-cases, inl, inr, refl,
}
use wireguard_receive_path.Replay.{counter_validate, fresh_counter}
use wireguard_receive_path.Replay.Refine.{fresh_counter-Tracks}
use wireguard_receive_path.Wake.{is_uncrypted}
use wireguard_receive_path.Wake.Job.{is_crypted}
use wireguard_receive_path.Receive.{Packet, Rx, has, deliver_one, deliver}
use wireguard_receive_path.Receive.Once.{
  delivered, IsOnce, consume_data_done-IsPassed, IsUnrepeated, checked, refused-IsUnrepeated,
  passed-IsUnrepeated,
}

deliver_one-IsUnrepeated :
    (now : ℕ) (p : Packet) (s : Rx) → IsUnrepeated s → IsUnrepeated (deliver_one now p s)
unfolding deliver_one
deliver_one-IsUnrepeated now p s u = elim (Bool-cases (not (is_crypted p.state))) [
  | inl e ↦ simp e (record { logs = u.logs; tracks = u.tracks; logged = u.logged; once = u.once })
  | inr e ↦ elim (Bool-cases (counter_validate (s.counters p.keypair) p.nonce).0) [
    | inr e' ↦ simp (e, e') (refused-IsUnrepeated p s u _ refl refl)
    | inl e' ↦ elim (Bool-cases (not (has p.endpoint))) [
      | inl e'' ↦ simp (e, e', e'') (refused-IsUnrepeated p s u _ refl refl)
      | inr e'' ↦
          let c = consume_data_done-IsPassed now p (checked p s u) in
          simp (e, e', e'')
            (elim c.passed [
              | inl d ↦ refused-IsUnrepeated p s u _ c.counters d
              | inr d ↦ passed-IsUnrepeated p s u e' _ c.counters d
            ])
    ]
  ]
]

deliver-IsUnrepeated :
    (now budget work : ℕ) (q : List Packet) (s : Rx)
    → IsUnrepeated s
    → IsUnrepeated (deliver now budget work q s).2
unfolding deliver
deliver-IsUnrepeated now budget work [] s u = u
deliver-IsUnrepeated now budget work (p ∷ q) s u = elim (Bool-cases (is_uncrypted p.state)) [
  | inl e ↦ simp e u
  | inr e ↦ elim (Bool-cases (leb budget (work + 1))) [
    | inl e' ↦ simp (e, e') (deliver_one-IsUnrepeated now p s u)
    | inr e' ↦
        simp (e, e')
          (deliver-IsUnrepeated now budget (work + 1) q (deliver_one now p s)
            (deliver_one-IsUnrepeated now p s u))
  ]
]

-- A poll: its time, its budget, and the queue it finds.
pub record Poll : Type 0 where
  pub now : ℕ
  pub budget : ℕ
  pub queue : List Packet

unfoldable pub run_polls : List Poll → Rx → Rx
run_polls [] s = s
run_polls (x ∷ xs) s = run_polls xs (deliver x.now x.budget 0 x.queue s).2

polls-IsUnrepeated : (xs : List Poll) (s : Rx) → IsUnrepeated s → IsUnrepeated (run_polls xs s)
unfolding run_polls
polls-IsUnrepeated [] s u = u
polls-IsUnrepeated (x ∷ xs) s u =
    polls-IsUnrepeated xs _ (deliver-IsUnrepeated x.now x.budget 0 x.queue s u)

-- From a peer whose replay counters are all fresh, and that has handed nothing to the stack yet: over
-- any polls that find any queues, no two packets with one keypair and one nonce are handed to the
-- network stack.
pub run_polls-IsOnce :
    (xs : List Poll) (s : Rx)
    → ((k : ℕ) → s.counters k ≡ fresh_counter)
    → delivered s.effects ≡ []
    → IsOnce (delivered (run_polls xs s).effects)
run_polls-IsOnce xs s fresh none_yet = (polls-IsUnrepeated xs s start).once
  where
    start : IsUnrepeated s
    start = record {
      logs = λ k. [];
      tracks = λ k. rw (fresh k) fresh_counter-Tracks;
      logged = λ k n h. absurd (cc (rw none_yet at h));
      once = rw none_yet tt;
    }
