-- ===== src/Clearing/Fold.antt =====
-- engine/stockmesh/clearing/mod.rs: `fold` and `validate_fold`.
use xtxc.Common.{
  ℕ, ◌*◌, ◌/◌, Bool, false, not, ◌&&◌, ◌||◌, List, [], ◌∷◌, ltb, leb, ◌==◌, if◌then◌else◌, length,
  replicate,
}
use xtxc.Common.Outcome.{
  Outcome, ok, panic, bounds, invalid_amount, arithmetic, balance_invariant, ◌>>=◌, ◌>>◌, reject,
  index, add_word, div_word, as_u64, u128_mod,
}
use xtxc.Common.Meter.{Metered, lift}
use xtxc.Common.Meter
use xtxc.Clearing.{
  FlowIntent, FoldFill, FoldReport, Folding, Ledger, max_intents, max_assets, max_pivots, gcd,
  check_intent, post, new_ledger, balanced, breaks_limit,
}
use xtxc.Clearing.Cycle.{pivot_all, certify}

-- The least common multiple of the prices.
unfoldable pub quantum_of : List ℕ → ℕ → Outcome ℕ
quantum_of [] quantum = ok quantum
quantum_of (p ∷ ps) quantum = do
  reject (p == 0 || ltb 1_000_000_000_000 p) invalid_amount
  part ← div_word quantum (gcd quantum p)
  reject (leb u128_mod (part * p)) arithmetic
  quantum_of ps (part * p)

pub record Intake : Type 0 where
  pub capacities : List ℕ
  pub requested : ℕ

-- The loop that checks the orders and sets their capacities, `quantum` being above 0.
unfoldable pub intake : List ℕ → ℕ → ℕ → List FlowIntent → List FlowIntent → ℕ → Outcome Intake
intake prices quantum slot earlier [] requested =
    ok (record { capacities = []; requested = requested })
intake prices quantum slot earlier (o ∷ os) requested = do
  check_intent (length prices) slot earlier o
  sell_price ← index prices o.sell
  requested' ← add_word u128_mod requested (o.amount * sell_price)
  buy_price ← index prices o.buy
  rest ← intake prices quantum slot (o ∷ earlier) os requested'
  ok (record {
    capacities =
        (if leb (o.min_out * buy_price) (o.amount * sell_price)
          then o.amount * sell_price / quantum
          else 0)
        ∷ rest.capacities;
    requested = rest.requested;
  })

pub record Settled : Type 0 where
  pub fills : List FoldFill
  pub cleared : ℕ
  pub ledger : Ledger

-- The fill of a flow, and the tests of it.
unfoldable pub fill_of : List ℕ → ℕ → FlowIntent → ℕ → Outcome FoldFill
fill_of prices quantum o flow = do
  reject (leb u128_mod (flow * quantum)) arithmetic
  sell_price ← index prices o.sell
  input ← as_u64 (flow * quantum / sell_price)
  buy_price ← index prices o.buy
  output ← as_u64 (flow * quantum / buy_price)
  reject (breaks_limit o (record { input = input; output = output })) balance_invariant
  ok (record { input = input; output = output })

unfoldable pub settle : List ℕ → ℕ → List FlowIntent → List ℕ → ℕ → Ledger → Outcome Settled
settle prices quantum [] flows cleared l = ok (record { fills = []; cleared = cleared; ledger = l })
settle prices quantum (o ∷ os) [] cleared l = panic
settle prices quantum (o ∷ os) (flow ∷ flows) cleared l = do
  f ← fill_of prices quantum o flow
  cleared' ← add_word u128_mod cleared (flow * quantum)
  l' ← post l o f
  rest ← settle prices quantum os flows cleared' l'
  ok (record rest { fills = f ∷ rest.fills })

-- `fold` up to the pivots: the quantum and the capacities.
pub record Prepared : Type 0 where
  pub quantum : ℕ
  pub taken : Intake

unfoldable pub prepare : List FlowIntent → List ℕ → ℕ → ℕ → Outcome Prepared
prepare orders prices slot pivots = do
  reject
      (length orders == 0
        || ltb max_intents (length orders)
        || ltb (length prices) 2
        || ltb max_assets (length prices)
        || ltb max_pivots pivots)
      bounds
  quantum ← quantum_of prices 1
  taken ← intake prices quantum slot [] orders 0
  ok (record { quantum = quantum; taken = taken })

-- `fold` from the flows on.
unfoldable pub conclude : List FlowIntent → List ℕ → Prepared → Folding → Outcome FoldReport
conclude orders prices p f = do
  settled ← settle prices p.quantum orders f.flows 0 new_ledger
  reject (not (balanced settled.ledger)) balance_invariant
  ok (record {
    fills = settled.fills;
    value_quantum = p.quantum;
    requested_value = p.taken.requested;
    internally_cleared_value = settled.cleared;
    pivots = f.pivots;
    reverse_edge_pivots = f.reverse_edge_pivots;
    optimal_at_fixed_prices = f.optimal;
  })

abbrev pub idle : ℕ → Folding
idle n = record { flows = replicate n 0; pivots = 0; reverse_edge_pivots = 0; optimal = false }

unfoldable pub fold : List FlowIntent → List ℕ → ℕ → ℕ → Metered FoldReport
fold orders prices slot pivots = Meter.◌>>=◌ (lift (prepare orders prices slot pivots)) (λ p.
    Meter.◌>>=◌ (pivot_all orders p.taken.capacities (length prices) pivots (idle (length orders)))
      (λ f.
        Meter.◌>>=◌ (certify orders p.taken.capacities (length prices) f)
          (λ g. lift (conclude orders prices p g))))

-- The tests of a fill in `validate_fold`.
abbrev pub invalid_fill : FlowIntent → FoldFill → Bool
invalid_fill o f =
    leb max_assets o.sell
    || leb max_assets o.buy
    || o.sell == o.buy
    || o.amount == 0
    || ltb o.amount f.input
    || (f.input == 0 && not (f.output == 0))
    || ltb (f.output * o.amount) (f.input * o.min_out)

unfoldable pub check_fills : List FlowIntent → List FoldFill → Ledger → Outcome Ledger
check_fills [] fills l = ok l
check_fills (o ∷ os) [] l = panic
check_fills (o ∷ os) (f ∷ fs) l = do
  reject (invalid_fill o f) balance_invariant
  l' ← post l o f
  check_fills os fs l'

unfoldable pub validate_fold : List FlowIntent → FoldReport → Outcome (Unit {0})
validate_fold orders r = do
  reject (ltb max_intents (length orders)) bounds
  l ← check_fills orders r.fills new_ledger
  reject (not (balanced l)) balance_invariant
