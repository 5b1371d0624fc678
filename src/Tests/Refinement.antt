-- ===== src/Tests/Refinement.antt =====
-- Tests of the refinement against an oracle.
use xtxc.Common.{ℕ, zero, suc, ◌≡◌, ◌≢◌, refl, ◌*◌, min, [], ◌∷◌, false, arith}
use xtxc.Common.Outcome.{ok, panic}
use xtxc.Optimizer.Oracle.{Oracle, ExactPlan, quote, put_quote, seed_edges, seed_masks, better_seed}
use xtxc.Optimizer.Subsets.{count_ones}
use xtxc.Common.Meter.{new}
use xtxc.Optimizer.Oracle.Refine.{
  funded, exchange_total, propose, exchange, try_exchange, scan_to, scan_from, improve, refine_loop,
  check_request, close_plan, refine_from, refine_metered, refine_bounded_legs,
}
use xtxc.Optimizer.Oracle.Refined.{Refined, refine_bounded_legs-Refined, refine_bounded_legs_total}

-- The first venue pays 3 for an atom up to the fourth, the second one always 2.
abbrev two_venues : Oracle
two_venues i x = elim i [ zero ↦ ok (3 * min x 4, 7) | suc j ↦ ok (2 * x, 9) ]

abbrev two_venues_plan : ExactPlan
two_venues_plan = record {
  inputs = 4 ∷ 6 ∷ 0 ∷ 0 ∷ 0 ∷ 0 ∷ 0 ∷ 0 ∷ [];
  outputs = 12 ∷ 12 ∷ 0 ∷ 0 ∷ 0 ∷ 0 ∷ 0 ∷ 0 ∷ [];
  output = 24;
  costs = 7 ∷ 9 ∷ 0 ∷ 0 ∷ 0 ∷ 0 ∷ 0 ∷ 0 ∷ [];
  cost = 16;
  oracle_calls = 22;
  exchanges = 2;
  final_step = 0;
  exhausted = false;
}

refine_run : refine_bounded_legs 2 10 50 100 2 two_venues ≡ ok two_venues_plan
unfolding refine_bounded_legs refine_metered refine_from refine_loop check_request close_plan
    improve scan_from scan_to try_exchange exchange propose exchange_total funded quote put_quote
    seed_edges seed_masks better_seed count_ones new
refine_run = refl

refine_bounded_legs-Refined_example : Refined two_venues 2 10 50 100 2 two_venues_plan
refine_bounded_legs-Refined_example =
    refine_bounded_legs-Refined 2 10 50 100 2 two_venues two_venues_plan refine_run

two_venues_runs : (i x : ℕ) → two_venues i x ≢ panic
two_venues_runs zero x e = ground arith
two_venues_runs (suc i) x e = ground arith

refine_bounded_legs_total_example : refine_bounded_legs 2 10 50 100 2 two_venues ≢ panic
refine_bounded_legs_total_example =
    refine_bounded_legs_total 2 10 50 100 2 two_venues two_venues_runs
