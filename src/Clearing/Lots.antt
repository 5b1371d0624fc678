-- ===== src/Clearing/Lots.antt =====
-- engine/stockmesh/clearing/mod.rs: `fold_lots`, `validate_lot_fold` and `residuals_lots`.
use xtxc.Common.{
  ℕ, ◌-◌, ◌*◌, ◌/◌, ◌%◌, Bool, false, not, ◌&&◌, ◌||◌, List, [], ◌∷◌, ◌++◌, ltb, leb, ◌==◌, ◌!=◌,
  if◌then◌else◌, length, replicate,
}
use xtxc.Common.Outcome.{
  Outcome, ok, panic, bounds, arithmetic, balance_invariant, ◌>>=◌, ◌>>◌, reject, index,
  checked_add, as_u64, u128_mod, max_atoms,
}
use xtxc.Common.Meter.{Metered, lift}
use xtxc.Common.Meter
use xtxc.Clearing.{
  FlowIntent, FoldFill, Folding, Ledger, max_intents, max_assets, max_pivots, check_intent, post,
  new_ledger, balanced, breaks_limit,
}
use xtxc.Clearing.Cycle.{pivot_all, certify}
use xtxc.Clearing.Fold.{Intake, Settled, idle}
use xtxc.Clearing.Residual.{ResidualGroup, build_residuals}

-- `lot_sizes` has the array's 8 entries.
pub record LotFoldReport : Type 0 where
  pub fills : List FoldFill
  pub lot_sizes : List ℕ
  pub requested_lots : ℕ
  pub internally_cleared_lots : ℕ
  pub pivots : ℕ
  pub reverse_edge_pivots : ℕ
  pub optimal_at_fixed_lots : Bool

-- `lot_sizes.iter().any(...)`
unfoldable pub bad_lot : List ℕ → Bool
bad_lot [] = false
bad_lot (lot ∷ lots) = lot == 0 || ltb max_atoms lot || bad_lot lots

-- The loop that checks the orders and sets their capacities, the lots being above 0.
unfoldable pub intake_lots : List ℕ → ℕ → List FlowIntent → List FlowIntent → ℕ → Outcome Intake
intake_lots lots slot earlier [] requested = ok (record { capacities = []; requested = requested })
intake_lots lots slot earlier (o ∷ os) requested = do
  check_intent (length lots) slot earlier o
  sell_lot ← index lots o.sell
  buy_lot ← index lots o.buy
  requested' ← checked_add u128_mod requested (o.amount / sell_lot) arithmetic
  rest ← intake_lots lots slot (o ∷ earlier) os requested'
  ok (record {
    capacities =
        (if leb (sell_lot * o.min_out) (buy_lot * o.amount) then o.amount / sell_lot else 0)
        ∷ rest.capacities;
    requested = rest.requested;
  })

unfoldable pub lot_fill : List ℕ → FlowIntent → ℕ → Outcome FoldFill
lot_fill lots o flow = do
  sell_lot ← index lots o.sell
  reject (leb u128_mod (flow * sell_lot)) arithmetic
  buy_lot ← index lots o.buy
  reject (leb u128_mod (flow * buy_lot)) arithmetic
  input ← as_u64 (flow * sell_lot)
  output ← as_u64 (flow * buy_lot)
  reject (breaks_limit o (record { input = input; output = output })) balance_invariant
  ok (record { input = input; output = output })

unfoldable pub settle_lots : List ℕ → List FlowIntent → List ℕ → ℕ → Ledger → Outcome Settled
settle_lots lots [] flows cleared l = ok (record { fills = []; cleared = cleared; ledger = l })
settle_lots lots (o ∷ os) [] cleared l = panic
settle_lots lots (o ∷ os) (flow ∷ flows) cleared l = do
  f ← lot_fill lots o flow
  cleared' ← checked_add u128_mod cleared flow arithmetic
  l' ← post l o f
  rest ← settle_lots lots os flows cleared' l'
  ok (record rest { fills = f ∷ rest.fills })

unfoldable pub prepare_lots : List FlowIntent → List ℕ → ℕ → ℕ → Outcome Intake
prepare_lots orders lots slot pivots = do
  reject
      (length orders == 0
        || ltb max_intents (length orders)
        || ltb (length lots) 2
        || ltb max_assets (length lots)
        || ltb max_pivots pivots
        || bad_lot lots)
      bounds
  intake_lots lots slot [] orders 0

unfoldable pub conclude_lots : List FlowIntent → List ℕ → Intake → Folding → Outcome LotFoldReport
conclude_lots orders lots taken f = do
  settled ← settle_lots lots orders f.flows 0 new_ledger
  reject (not (balanced settled.ledger)) balance_invariant
  ok (record {
    fills = settled.fills;
    lot_sizes = lots ++ replicate (max_assets - length lots) 0;
    requested_lots = taken.requested;
    internally_cleared_lots = settled.cleared;
    pivots = f.pivots;
    reverse_edge_pivots = f.reverse_edge_pivots;
    optimal_at_fixed_lots = f.optimal;
  })

unfoldable pub fold_lots : List FlowIntent → List ℕ → ℕ → ℕ → Metered LotFoldReport
fold_lots orders lots slot pivots =
    Meter.◌>>=◌ (lift (prepare_lots orders lots slot pivots)) (λ taken.
      Meter.◌>>=◌ (pivot_all orders taken.capacities (length lots) pivots (idle (length orders)))
        (λ f.
          Meter.◌>>=◌ (certify orders taken.capacities (length lots) f)
            (λ g. lift (conclude_lots orders lots taken g))))

-- The tests of a fill against the lots of its two assets.
abbrev pub off_lattice : FlowIntent → FoldFill → ℕ → ℕ → Bool
off_lattice o f sell_lot buy_lot =
    sell_lot == 0
    || buy_lot == 0
    || ltb o.amount f.input
    || (f.input == 0 && f.output != 0)
    || f.input % sell_lot != 0
    || f.output % buy_lot != 0
    || f.input / sell_lot != f.output / buy_lot
    || ltb (f.output * o.amount) (f.input * o.min_out)

unfoldable pub check_lots :
    List ℕ → List FlowIntent → List FoldFill → ℕ → Ledger → Outcome (ℕ × Ledger)
check_lots lots [] fs cleared l = ok (cleared, l)
check_lots lots (o ∷ os) [] cleared l = panic
check_lots lots (o ∷ os) (f ∷ fs) cleared l = do
  reject (leb max_assets o.sell || leb max_assets o.buy || o.sell == o.buy || o.amount == 0)
      balance_invariant
  sell_lot ← index lots o.sell
  buy_lot ← index lots o.buy
  reject (off_lattice o f sell_lot buy_lot) balance_invariant
  cleared' ← checked_add u128_mod cleared (f.input / sell_lot) arithmetic
  l' ← post l o f
  check_lots lots os fs cleared' l'

unfoldable pub validate_lot_fold : List FlowIntent → LotFoldReport → Outcome (Unit {0})
validate_lot_fold orders r = do
  reject (ltb max_intents (length orders)) bounds
  sums ← check_lots r.lot_sizes orders r.fills 0 new_ledger
  reject (not (balanced sums.1) || sums.0 != r.internally_cleared_lots) balance_invariant

unfoldable pub residuals_lots : List FlowIntent → LotFoldReport → Outcome (List ResidualGroup)
residuals_lots orders r = do
  reject (ltb max_intents (length orders)) bounds
  validate_lot_fold orders r
  build_residuals 0 orders r.fills []
