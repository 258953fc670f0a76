-- ===== src/Send/Apart.antt =====
-- No nonce is used twice with one key.
use wireguard_receive_path.Prelude.{
  ℕ, ◌≤◌, ◌<◌, ◌≡◌, true, false, not, ◌==◌, ◌&&◌, ◌||◌, if◌then◌else◌, Option, none, some, List, [],
  ◌∷◌, ◌++◌, update, update_each, refl, sym, subst, ◌∙◌, arith, Bool-cases, inl, inr,
}
use wireguard_receive_path.Replay.{reject_after_messages}
use wireguard_receive_path.Cookie.{birthdate_has_expired}
use wireguard_receive_path.Send.{
  Skb, keypair_put, Peer, rekey_timeout, reject_after_time, emit, send_queued_handshake_initiation,
  assign, out_nokey, out_invalid, after_assign, send_packets,
}
use wireguard_receive_path.Send.Nonces.{
  tagged, used, is_used, IsCounted, IsCounted-raised, IsAssigned, assign-IsAssigned,
}

-- What keeps the nonces of a peer apart: they are counted, a keypair that is still valid has nonces
-- left, and the next keypair has none used.
pub record IsApart (s : Peer) : Type 0 where
  pub counted : IsCounted s.sending_counter (used s.effects)
  pub not_over : (k : ℕ) → s.sending_is_valid k ≡ true → s.sending_counter k ≤ reject_after_messages
  pub made : (k n : ℕ) → is_used k n (used s.effects) ≡ true → k < s.next_id
  pub known : (k : ℕ) → s.current ≡ some k → k < s.next_id

-- A change that uses no nonce.
pub record IsQuiet (s s' : Peer) : Type 0 where
  pub same_counter : s'.sending_counter ≡ s.sending_counter
  pub same_used : used s'.effects ≡ used s.effects
  pub not_revived : (k : ℕ) → s'.sending_is_valid k ≡ true → s.sending_is_valid k ≡ true
  pub same_next : s'.next_id ≡ s.next_id
  pub same_current : s'.current ≡ s.current

pub quiet-IsApart : (s s' : Peer) → IsQuiet s s' → IsApart s → IsApart s'
quiet-IsApart s s' q a = record {
  counted =
      subst (λ f. IsCounted f (used s'.effects)) (sym q.same_counter)
        (subst (IsCounted s.sending_counter) (sym q.same_used) a.counted);
  not_over = λ k v.
      subst (λ f. f k ≤ reject_after_messages) (sym q.same_counter)
        (a.not_over k (q.not_revived k v));
  made = λ k n h.
      subst (λ x. k < x) (sym q.same_next)
        (a.made k n (subst (λ l. is_used k n l ≡ true) q.same_used h));
  known = λ k h. subst (λ x. k < x) (sym q.same_next) (a.known k (sym q.same_current ∙ h));
}

IsQuiet-trans : (s s' s'' : Peer) → IsQuiet s s' → IsQuiet s' s'' → IsQuiet s s''
IsQuiet-trans s s' s'' q q' = record {
  same_counter = q'.same_counter ∙ q.same_counter;
  same_used = q'.same_used ∙ q.same_used;
  not_revived = λ k v. q.not_revived k (q'.not_revived k v);
  same_next = q'.same_next ∙ q.same_next;
  same_current = q'.same_current ∙ q.same_current;
}

pub asked-IsQuiet : (now : ℕ) (s : Peer) → IsQuiet s (send_queued_handshake_initiation now false s)
unfolding send_queued_handshake_initiation
asked-IsQuiet now s =
    elim (Bool-cases
      (not (birthdate_has_expired now s.last_sent_handshake rekey_timeout) || s.is_dead)) [
        | inl e ↦ simp (e) (quiet refl refl refl refl (λ k v. v))
        | inr e ↦ elim (Bool-cases s.transmit_handshake_work) [
          | inl w ↦ simp (e, w) (quiet refl refl refl refl (λ k v. v))
          | inr w ↦ simp (e, w) (quiet refl refl refl refl (λ k v. v))
        ]
      ]
  where
    quiet :
        {s' : Peer}
        → s'.sending_counter ≡ s.sending_counter
        → used s'.effects ≡ used s.effects
        → s'.next_id ≡ s.next_id
        → s'.current ≡ s.current
        → ((k : ℕ) → s'.sending_is_valid k ≡ true → s.sending_is_valid k ≡ true)
        → IsQuiet s s'
    quiet a b c d e = record {
      same_counter = a;
      same_used = b;
      not_revived = e;
      same_next = c;
      same_current = d;
    }

nokey-IsQuiet :
    (now : ℕ) (k : Option ℕ) (ps : List Skb) (s : Peer) → IsQuiet s (out_nokey now k ps s)
unfolding out_nokey
nokey-IsQuiet now k ps s =
    let t : Peer = record (emit (keypair_put k) s) { staged = ps ++ s.staged } in
    IsQuiet-trans s t (send_queued_handshake_initiation now false t)
      (record {
        same_counter = refl;
        same_used = refl;
        not_revived = λ k v. v;
        same_next = refl;
        same_current = refl;
      })
      (asked-IsQuiet now t)

invalid-IsQuiet : (now k : ℕ) (ps : List Skb) (s : Peer) → IsQuiet s (out_invalid now k ps s)
unfolding out_invalid
invalid-IsQuiet now k ps s =
    let t : Peer = record s { sending_is_valid = update s.sending_is_valid k false } in
    IsQuiet-trans s t (out_nokey now (some k) ps t)
      (record {
        same_counter = refl;
        same_used = refl;
        not_revived = λ j v. ground (arith, v);
        same_next = refl;
        same_current = refl;
      })
      (nokey-IsQuiet now (some k) ps t)

tagged-made :
    (next k : ℕ) (sent : List (Skb × ℕ)) (l : List (ℕ × ℕ))
    → k < next
    → ((j n : ℕ) → is_used j n l ≡ true → j < next)
    → (j n : ℕ) → is_used j n (tagged k sent l) ≡ true
    → j < next
tagged-made next k [] l lt h = h
tagged-made next k ((p, c) ∷ sent) l lt h = tagged-made next k sent ((k, c) ∷ l) lt (λ j n e.
    elim (Bool-cases ((k == j) && (c == n))) [
      | inl here ↦ ground (arith, lt, here)
      | inr there ↦ h j n (ground (arith, there, e))
    ])

after_assign-IsApart :
    (now k : ℕ) (ps : List Skb) (s : Peer) (r : Option (List (Skb × ℕ)) × ℕ)
    → IsApart s
    → k < s.next_id
    → IsAssigned s.sending_counter k (used s.effects) (s.sending_counter k) r
    → IsApart (after_assign now k ps r s)
unfolding after_assign out_invalid
after_assign-IsApart now k ps s (none, c) a lt h =
    let t : Peer = record s {
      sending_counter = update s.sending_counter k c;
      sending_is_valid = update s.sending_is_valid k false;
    } in
    quiet-IsApart t (out_nokey now (some k) ps t) (nokey-IsQuiet now (some k) ps t) (record {
      counted =
          IsCounted-raised s.sending_counter (update s.sending_counter k c) (used s.effects)
            (update_each (λ j x. s.sending_counter j ≤ x) s.sending_counter k c h
              (λ j. omega arith))
            a.counted;
      not_over = λ j v. elim (Bool-cases (k == j)) [
        | inl e ↦ ground (arith, e, v)
        | inr e ↦ ground (arith, e, a.not_over j (ground (arith, e, v)))
      ];
      made = a.made;
      known = a.known;
    })
after_assign-IsApart now k ps s (some sent, c) a lt (le, h) = record {
  counted = h;
  not_over = λ j v.
      update_each (λ j x. s.sending_is_valid j ≡ true → x ≤ reject_after_messages) s.sending_counter
        k c (λ v. le) a.not_over j v;
  made = tagged-made s.next_id k sent (used s.effects) lt a.made;
  known = a.known;
}

pub send_packets-IsApart :
    (now : ℕ) (ps : List Skb) (s : Peer) → IsApart s → IsApart (send_packets now ps s)
unfolding send_packets
send_packets-IsApart now ps s a = go s.current refl
  where
    go :
        (o : Option ℕ)
        → s.current ≡ o
        → IsApart (elim o [
          | none ↦ out_nokey now none ps s
          | some k ↦
              if not (s.sending_is_valid k)
              then out_nokey now (some k) ps s
              else if birthdate_has_expired now (s.sending_birthdate k) reject_after_time
              then out_invalid now k ps s
              else after_assign now k ps (assign ps (s.sending_counter k)) s
        ])
    go none e = quiet-IsApart s (out_nokey now none ps s) (nokey-IsQuiet now none ps s) a
    go (some k) e = elim (Bool-cases (s.sending_is_valid k)) [
      | inr bad ↦
          simp (bad)
            (quiet-IsApart s (out_nokey now (some k) ps s) (nokey-IsQuiet now (some k) ps s) a)
      | inl valid ↦
          elim (Bool-cases (birthdate_has_expired now (s.sending_birthdate k) reject_after_time)) [
            | inl old ↦
                simp (valid, old)
                  (quiet-IsApart s (out_invalid now k ps s) (invalid-IsQuiet now k ps s) a)
            | inr young ↦
                simp (valid, young)
                  (after_assign-IsApart now k ps s (assign ps (s.sending_counter k)) a (a.known k e)
                    (assign-IsAssigned s.sending_counter k ps (s.sending_counter k) (used s.effects)
                      (a.not_over k valid)
                      (IsCounted-raised s.sending_counter
                        (update s.sending_counter k (s.sending_counter k)) (used s.effects)
                        (update_each (λ j x. s.sending_counter j ≤ x) s.sending_counter k
                          (s.sending_counter k) (omega arith) (λ j. omega arith))
                        a.counted)))
          ]
    ]
