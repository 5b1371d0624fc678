-- ===== src/OneBook/Matching.antt =====
-- engine/stockmesh/onebook/mod.rs: the metered search for the best pair, and `match_continuous`.
use xtxc.Common.{
  ℕ, zero, suc, true, false, not, ◌&&◌, ◌||◌, Option, none, some, List, [], ◌∷◌, ◌==◌,
  if◌then◌else◌,
}
use xtxc.Common.Outcome.{panic}
use xtxc.Common.Meter.{Metered, charge, ◌>>=◌, ◌>>◌, lift, pure}
use xtxc.OneBook.{
  SettlementOptionalOrder, MatchReport, Pair, better, crosses, trade, open_book, is_sell,
}

-- The inner loop: the sellers from number `j` on with their residual exposures.
unfoldable pub scan_sellers :
    ℕ
    → SettlementOptionalOrder
    → ℕ
    → List SettlementOptionalOrder
    → List ℕ
    → Option Pair
    → Metered (Option Pair)
scan_sellers i buyer j [] residuals best = pure best
scan_sellers i buyer j (o ∷ os) [] best = lift panic
scan_sellers i buyer j (o ∷ os) (r ∷ rs) best = do
  charge 1
  scan_sellers i buyer (suc j) os rs (
      if is_sell o.side && not (r == 0) && crosses buyer o
      then better best (record { buyer_index = i; seller_index = j; buyer = buyer; seller = o })
      else best)

unfoldable pub scan_buyers :
    List SettlementOptionalOrder
    → List ℕ
    → ℕ
    → List SettlementOptionalOrder
    → List ℕ
    → Option Pair
    → Metered (Option Pair)
scan_buyers all residuals i [] rs best = pure best
scan_buyers all residuals i (o ∷ os) [] best = lift panic
scan_buyers all residuals i (o ∷ os) (r ∷ rs) best = elim (is_sell o.side || r == 0) [
  | true ↦ scan_buyers all residuals (suc i) os rs best
  | false ↦ scan_sellers i o 0 all residuals best >>= λ found.
      scan_buyers all residuals (suc i) os rs found
]

-- `loop`, on fuel: every round closes at least one order.
unfoldable pub match_loop : ℕ → List SettlementOptionalOrder → MatchReport → Metered MatchReport
match_loop zero orders r = lift panic
match_loop (suc fuel) orders r = do
  best ← scan_buyers orders r.residual_exposure_q32 0 orders r.residual_exposure_q32 none
  elim best [ none ↦ pure r | some p ↦ lift (trade p r) >>= λ r'. match_loop fuel orders r' ]

unfoldable pub match_continuous : List SettlementOptionalOrder → ℕ → Metered MatchReport
match_continuous orders slot = do r ← lift (open_book orders slot); match_loop 17 orders r
