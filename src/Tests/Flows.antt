-- ===== src/Tests/Flows.antt =====
-- Tests of the clearing of flows and of the matching of orders.
use xtxc.Common.{ℕ, ◌≡◌, refl, [], ◌∷◌}
use xtxc.Common.Outcome.{ok, as_u64, ceil_div}
use xtxc.Common.Meter.{charge}
use xtxc.Clearing.{
  gcd, gcd_loop, arc, relax, follow, back, walk_back, collect, extract, weigh, shift, shift_all,
  push, repeats, check_intent, add_at, post, same,
}
use xtxc.Clearing.Cycle.{
  relax_all, relax_rounds, extract_cycle, improving_cycle, pivot_all, is_none, certify,
}
use xtxc.Clearing.Fold.{
  quantum_of, intake, fill_of, settle, prepare, conclude, fold, check_fills, validate_fold,
}
use xtxc.Clearing.Residual.{
  join, join_first, build_residuals, residuals, same_group, contains, precedes, share, share_out,
  add_dust, distribute,
}
use xtxc.Clearing.Lots.{
  bad_lot, intake_lots, lot_fill, settle_lots, prepare_lots, conclude_lots, fold_lots,
}
use xtxc.Clearing.Balance.{Fair, sold, bought}
use xtxc.Clearing.Groups.{held_in, held_out, left_in, left_out, residuals_complete}
use xtxc.Clearing.Distribute.{sum, Floored, distribute_exact}
use xtxc.Clearing.LotBalance.{fold_lots-conserves}
use xtxc.Clearing.Accept.{fold-valid, fold-conserves}
use xtxc.OneBook
use xtxc.OneBook.{
  check_claims, check_delivery, contains_claim, validate_order, crosses, check_orders, has_priority,
  better, take_from, give_to, trade, exposures, open_book,
}
use xtxc.OneBook.Matching.{scan_sellers, scan_buyers, match_loop, match_continuous}
use xtxc.OneBook.Trades.{Matched, match_continuous-Matched}
use xtxc.OneBook.Levels.{stays, all_move, insert, refuses, add_slices, compile_virtual_book}
use xtxc.OneBook.Sorted.{Sorted, total_of, slices_of, compile_virtual_book-Sorted}
use xtxc.Tests.Data.{
  orders, folded, lot_folded, rest, budget, book_orders, matched, slices, compiled,
}

fold_run : (fold orders (1 ∷ 2 ∷ []) 5 10 budget).0 ≡ ok folded
unfolding as_u64 gcd gcd_loop arc relax follow back walk_back collect extract weigh shift shift_all
    push repeats check_intent add_at post same relax_all relax_rounds extract_cycle improving_cycle
    pivot_all is_none certify quantum_of intake fill_of settle prepare conclude fold charge
fold_run = refl

fold-valid_example : validate_fold orders folded ≡ ok tt
fold-valid_example = fold-valid orders (1 ∷ 2 ∷ []) 5 10 budget folded fold_run

fold-conserves_example :
    Fair orders folded.fills × ((a : ℕ) → sold a orders folded.fills ≡ bought a orders folded.fills)
fold-conserves_example = fold-conserves orders (1 ∷ 2 ∷ []) 5 10 budget folded fold_run

fold_lots_run : (fold_lots orders (2 ∷ 1 ∷ []) 5 10 budget).0 ≡ ok lot_folded
unfolding as_u64 arc relax follow back walk_back collect extract weigh shift shift_all push repeats
    check_intent add_at post same relax_all relax_rounds extract_cycle improving_cycle pivot_all
    is_none certify bad_lot intake_lots lot_fill settle_lots prepare_lots conclude_lots fold_lots
    charge
fold_lots_run = refl

fold_lots-conserves_example :
    Fair orders lot_folded.fills
    × ((a : ℕ) → sold a orders lot_folded.fills ≡ bought a orders lot_folded.fills)
fold_lots-conserves_example =
    fold_lots-conserves orders (2 ∷ 1 ∷ []) 5 10 budget lot_folded fold_lots_run

residuals_run : residuals orders folded ≡ ok (rest ∷ [])
unfolding add_at post same check_fills validate_fold join join_first build_residuals residuals
residuals_run = refl

residuals_complete_example :
    (held_in 0 1 (rest ∷ []) ≡ left_in 0 1 orders folded.fills)
    × (held_out 0 1 (rest ∷ []) ≡ left_out 0 1 orders folded.fills)
residuals_complete_example = residuals_complete orders folded (rest ∷ []) 0 1 residuals_run

distribute_run : distribute orders folded rest 11 ≡ ok (11 ∷ 0 ∷ [])
unfolding as_u64 add_at post same check_fills validate_fold join join_first build_residuals
    residuals same_group contains precedes share share_out add_dust distribute
distribute_run = refl

distribute_exact_example :
    (sum (11 ∷ 0 ∷ []) ≡ 11) × Floored rest.members 0 orders folded.fills (11 ∷ 0 ∷ [])
distribute_exact_example = distribute_exact orders folded rest 11 (11 ∷ 0 ∷ []) distribute_run

match_run : (match_continuous book_orders 5 budget).0 ≡ ok matched
unfolding charge OneBook.contains OneBook.repeats check_claims check_delivery contains_claim
    validate_order crosses check_orders has_priority better take_from give_to trade exposures
    open_book scan_sellers scan_buyers match_loop match_continuous
match_run = refl

match_continuous-Matched_example : Matched book_orders matched
match_continuous-Matched_example = match_continuous-Matched book_orders 5 budget matched match_run

compile_run : (compile_virtual_book slices 5 budget).0 ≡ ok compiled
unfolding as_u64 ceil_div charge stays all_move insert refuses add_slices compile_virtual_book
compile_run = refl

compile_virtual_book-Sorted_example :
    Sorted compiled.levels
    × (compiled.total_exposure_q32 ≡ total_of compiled.levels)
    × (compiled.total_exposure_q32 ≡ slices_of slices)
compile_virtual_book-Sorted_example =
    compile_virtual_book-Sorted slices 5 budget compiled compile_run
