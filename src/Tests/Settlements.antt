-- ===== src/Tests/Settlements.antt =====
-- Tests of the check of a settlement, and of the end of a matching.
use xtxc.Common.{ℕ, ◌≡◌, ◌≤◌, ◌+◌, refl, List, [], ◌∷◌, length}
use xtxc.Common.Int.{ℤ, pos, negsuc, pos_part, neg_part, ◌+ℤ◌, ◌-ℤ◌}
use xtxc.Common.Outcome.{ok}
use xtxc.Common.Ends.{Ending}
use xtxc.Clearing.Settlement.{
  gain, lose, settle_net, all_zero, verify_settlement, paid, got, Honoured, at,
  verify_settlement-conserves,
}
use xtxc.OneBook.{MatchReport}
use xtxc.OneBook.Matching.{match_continuous}
use xtxc.OneBook.Total.{match_continuous_total}
use xtxc.Tests.Data.{orders, budget, book_orders}

-- The venues take 20 of the first asset and pay 10 of the second one.
abbrev venue_delta : List ℤ
venue_delta = negsuc 19 ∷ pos 10 ∷ pos 0 ∷ pos 0 ∷ pos 0 ∷ pos 0 ∷ pos 0 ∷ pos 0 ∷ []

settlement_run : verify_settlement orders (60 ∷ 20 ∷ []) (30 ∷ 40 ∷ []) venue_delta ≡ ok tt
unfolding verify_settlement settle_net gain lose all_zero ◌+ℤ◌ ◌-ℤ◌
settlement_run = refl

verify_settlement-conserves_example :
    Honoured orders (60 ∷ 20 ∷ []) (30 ∷ 40 ∷ [])
    × ((a : ℕ)
        → paid a orders (60 ∷ 20 ∷ []) + pos_part (at venue_delta a)
          ≡ got a orders (30 ∷ 40 ∷ []) + neg_part (at venue_delta a))
verify_settlement-conserves_example =
    verify_settlement-conserves orders (60 ∷ 20 ∷ []) (30 ∷ 40 ∷ []) venue_delta settlement_run

match_continuous_total_example :
    Ending ⊥ (λ (r : MatchReport). length r.fills ≤ 2) (match_continuous book_orders 5 budget).0
match_continuous_total_example = match_continuous_total book_orders 5 budget
