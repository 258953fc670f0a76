-- ===== src/Ratelimiter/Tests.antt =====
-- One address floods, another is not touched, and the table is collected in between.
use wireguard_receive_path.Prelude.{
  ℕ, ◌+◌, ◌-◌, ◌*◌, ◌≤◌, ◌≡◌, true, false, List, [], ◌∷◌, refl, arith,
}
use wireguard_receive_path.Ratelimiter.{
  packet_cost, token_max, Ratelimiter, ipv4, ipv6, ratelimiter_allow, gc_entries,
}
use wireguard_receive_path.Ratelimiter.Rate.{
  IsOrdered, Event, asks, collects, count_allowed, count_allowed_lem,
}

abbrev empty_table : Ratelimiter
empty_table = record {
  table = λ v6 i. [];
  table_size = 16;
  max_entries = 128;
  total_entries = 0;
  dying = 0;
}

abbrev hash_two : ℕ → ℕ → ℕ
hash_two a b = a + b

abbrev hash_three : ℕ → ℕ → ℕ → ℕ
hash_three a b c = a + b + c

abbrev flood : List (ℕ × Event)
flood =
    (10, asks true 1 (ipv4 7))
    ∷ (10, asks true 1 (ipv4 7))
    ∷ (11, asks true 1 (ipv6 7))
    ∷ (12, asks true 1 (ipv4 7))
    ∷ (13, asks true 1 (ipv4 7))
    ∷ (14, asks true 1 (ipv4 7))
    ∷ (15, asks true 1 (ipv4 7))
    ∷ (60000000, asks true 1 (ipv4 7))
    ∷ (60000001, collects)
    ∷ (60000002, asks true 1 (ipv4 7))
    ∷ []

flood_counted : count_allowed hash_two hash_three false 1 7 flood empty_table ≡ 6
unfolding count_allowed ratelimiter_allow gc_entries
flood_counted = refl

count_allowed_lem_example :
    count_allowed hash_two hash_three false 1 7 flood empty_table * packet_cost
    ≤ token_max + (60000002 - 5)
count_allowed_lem_example =
    count_allowed_lem hash_two hash_three false 1 7 flood 5 empty_table (λ v j. tt) ordered
  where
    ordered : IsOrdered 5 flood
    ordered = (
      omega arith,
      omega arith,
      (
        omega arith,
        omega arith,
        (
          omega arith,
          omega arith,
          (
            omega arith,
            omega arith,
            (
              omega arith,
              omega arith,
              (
                omega arith,
                omega arith,
                (
                  omega arith,
                  omega arith,
                  (
                    omega arith,
                    omega arith,
                    (omega arith, omega arith, (omega arith, omega arith, tt)),
                  ),
                ),
              ),
            ),
          ),
        ),
      ),
    )
