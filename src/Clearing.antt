-- ===== src/Clearing.antt =====
-- engine/stockmesh/clearing/mod.rs: the intents, the residual graph of a fold and its pivots.
pub mod Cycle
pub mod Fold
pub mod Residual
pub mod Balance
pub mod Quantum
pub mod Accept
pub mod Distribute
pub mod Groups
pub mod Lots
pub mod LotBalance
pub mod Settlement
use xtxc.Common.{
  ℕ, zero, suc, ◌+◌, ◌-◌, ◌*◌, ◌/◌, ◌%◌, min, Bool, true, false, ◌&&◌, ◌||◌, Option, none, some,
  List, [], ◌∷◌, ◌++◌, ltb, leb, ◌==◌, ◌!=◌, if◌then◌else◌, set, replicate, length,
}
use xtxc.Common.Outcome.{
  Error, Outcome, ok, err, panic, arithmetic, index, ok_or, sub_word, add_word, u128_mod, ◌>>=◌,
  ◌>>◌, as_u64, reject, invalid_amount, expired, duplicate, balance_invariant, bounds, max_atoms,
  checked_add,
}

abbrev pub max_intents : ℕ
max_intents = 32

abbrev pub max_assets : ℕ
max_assets = 8

abbrev pub max_pivots : ℕ
max_pivots = 256

pub record FlowIntent : Type 0 where
  pub owner : ℕ
  pub nonce : ℕ
  pub sell : ℕ
  pub buy : ℕ
  pub amount : ℕ
  pub min_out : ℕ
  pub expires_at_slot : ℕ

pub record FoldFill : Type 0 where
  pub input : ℕ
  pub output : ℕ

abbrev pub no_fill : FoldFill
no_fill = record { input = 0; output = 0 }

-- Arrays by the number of an order are lists of the orders' own entries: the entries behind them are
-- never read, and a list with fewer entries has no counterpart.
pub record FoldReport : Type 0 where
  pub fills : List FoldFill
  pub value_quantum : ℕ
  pub requested_value : ℕ
  pub internally_cleared_value : ℕ
  pub pivots : ℕ
  pub reverse_edge_pivots : ℕ
  pub optimal_at_fixed_prices : Bool

-- The costs 1 and -1 of a pair of arcs are told apart by `reverse`.
pub record Arc : Type 0 where
  pub from : ℕ
  pub to : ℕ
  pub order : ℕ
  pub reverse : Bool
  pub cap : ℕ

-- Euclid's loop; the second number falls in each round.
unfoldable pub gcd_loop : ℕ → ℕ → ℕ → ℕ
gcd_loop zero a b = a
gcd_loop (suc fuel) a zero = a
gcd_loop (suc fuel) a (suc b) = gcd_loop fuel (suc b) (a % suc b)

unfoldable pub gcd : ℕ → ℕ → ℕ
gcd a b = gcd_loop (suc b) a b

unfoldable pub arc : List FlowIntent → List ℕ → List ℕ → ℕ → Outcome Arc
arc orders capacities flows j = do
  o ← index orders (j / 2)
  flow ← index flows (j / 2)
  if j % 2 == 1
      then ok (record { from = o.buy; to = o.sell; order = j / 2; reverse = true; cap = flow })
      else (do
        most ← index capacities (j / 2)
        left ← sub_word most flow
        ok (record { from = o.sell; to = o.buy; order = j / 2; reverse = false; cap = left }))

-- The variables of the search for a cycle. `usize::MAX` in `previous` is `none`. The distances
-- start at 0 and only rise, so they are not negative.
pub record Search : Type 0 where
  pub distance : List ℕ
  pub previous : List (Option ℕ)
  pub updated : Option ℕ

-- `distance[e.to] < distance[e.from] + e.cost`, and the sum where it is the greater.
abbrev pub farther : Bool → ℕ → ℕ → Bool
farther true to from = ltb (to + 1) from
farther false to from = ltb to (from + 1)

abbrev pub reach : Bool → ℕ → ℕ
reach true from = from - 1
reach false from = from + 1

unfoldable pub relax : Arc → ℕ → Search → Outcome Search
relax e j s = do
  to ← index s.distance e.to
  from ← index s.distance e.from
  ok (
      if ltb 0 e.cap && farther e.reverse to from
      then record {
        distance = set s.distance e.to (reach e.reverse from);
        previous = set s.previous e.to (some j);
        updated = some e.to;
      }
      else s)

-- The arc by which the search came to a vertex, and where that arc starts.
unfoldable pub follow : List FlowIntent → List ℕ → List ℕ → Option ℕ → Outcome (ℕ × ℕ)
follow orders capacities flows none = err arithmetic
follow orders capacities flows (some j) = do e ← arc orders capacities flows j; ok (j, e.from)

unfoldable pub back : List FlowIntent → List ℕ → List ℕ → Search → ℕ → Outcome (ℕ × ℕ)
back orders capacities flows s vertex = do
  entry ← index s.previous vertex
  follow orders capacities flows entry

module _ (orders : List FlowIntent) (capacities flows : List ℕ) (s : Search) where
  unfoldable pub walk_back : ℕ → ℕ → Outcome ℕ
  walk_back zero vertex = ok vertex
  walk_back (suc assets) vertex = do
    step ← back orders capacities flows s vertex
    walk_back assets step.1

  -- The loop that collects the cycle, with room for so many more arcs.
  unfoldable pub collect : ℕ → ℕ → ℕ → Outcome (List ℕ)
  collect zero start vertex = err arithmetic
  collect (suc room) start vertex = do
    step ← back orders capacities flows s vertex
    elim (step.1 == start) [
      | true ↦ ok (step.0 ∷ [])
      | false ↦ collect room start step.1 >>= λ rest. ok (step.0 ∷ rest)
    ]

  unfoldable pub extract : ℕ → Outcome (List ℕ)
  extract assets = do
    vertex ← ok_or s.updated arithmetic
    start ← walk_back assets vertex
    collect assets start start

-- What the first pass over a cycle gathers: the cost is `forward` less `backward`.
pub record Pivot : Type 0 where
  pub delta : ℕ
  pub forward : ℕ
  pub backward : ℕ

unfoldable pub weigh : List FlowIntent → List ℕ → List ℕ → List ℕ → Pivot → Outcome Pivot
weigh orders capacities flows [] p = ok p
weigh orders capacities flows (j ∷ js) p = do
  e ← arc orders capacities flows j
  weigh orders capacities flows js (record {
    delta = min p.delta e.cap;
    forward = p.forward + (if e.reverse then 0 else 1);
    backward = p.backward + (if e.reverse then 1 else 0);
  })

-- `flows[e.order] -= delta` or `+= delta`
unfoldable pub shift : List ℕ → ℕ → ℕ → Outcome (List ℕ)
shift flows delta j = do
  flow ← index flows (j / 2)
  flow' ← if j % 2 == 1 then sub_word flow delta else add_word u128_mod flow delta
  ok (set flows (j / 2) flow')

unfoldable pub shift_all : ℕ → List ℕ → List ℕ → Outcome (List ℕ)
shift_all delta [] flows = ok flows
shift_all delta (j ∷ js) flows = do flows' ← shift flows delta j; shift_all delta js flows'

-- The flows and the counts of a fold.
pub record Folding : Type 0 where
  pub flows : List ℕ
  pub pivots : ℕ
  pub reverse_edge_pivots : ℕ
  pub optimal : Bool

unfoldable pub push : List FlowIntent → List ℕ → List ℕ → Folding → Outcome Folding
push orders capacities cycle f = do
  p ←
      weigh orders capacities f.flows cycle
        (record { delta = u128_mod - 1; forward = 0; backward = 0 })
  reject (leb p.forward p.backward || p.delta == 0) arithmetic
  flows' ← shift_all p.delta cycle f.flows
  ok (record {
    flows = flows';
    pivots = f.pivots + 1;
    reverse_edge_pivots = f.reverse_edge_pivots + (if p.backward == 0 then 0 else 1);
    optimal = f.optimal;
  })

-- `orders[..i].any(...)`: one of the same owner and nonce.
unfoldable pub repeats : FlowIntent → List FlowIntent → Bool
repeats o [] = false
repeats o (a ∷ as') = (a.owner == o.owner && a.nonce == o.nonce) || repeats o as'

-- The tests of an order that both folds make.
unfoldable pub check_intent : ℕ → ℕ → List FlowIntent → FlowIntent → Outcome (Unit {0})
check_intent assets slot earlier o = do
  reject
      (o.sell == o.buy
        || leb assets o.sell
        || leb assets o.buy
        || o.amount == 0
        || ltb max_atoms o.amount
        || ltb max_atoms o.min_out)
      invalid_amount
  reject (ltb o.expires_at_slot slot) expired
  reject (repeats o earlier) duplicate

-- The sums by asset. A sum of 32 words of 64 bits fits u128.
pub record Ledger : Type 0 where
  pub debit : List ℕ
  pub credit : List ℕ

abbrev pub new_ledger : Ledger
new_ledger = record { debit = replicate max_assets 0; credit = replicate max_assets 0 }

unfoldable pub add_at : List ℕ → ℕ → ℕ → Outcome (List ℕ)
add_at xs i v = do x ← index xs i; ok (set xs i (x + v))

unfoldable pub post : Ledger → FlowIntent → FoldFill → Outcome Ledger
post l o f = do
  debit ← add_at l.debit o.sell f.input
  credit ← add_at l.credit o.buy f.output
  ok (record { debit = debit; credit = credit })

unfoldable pub same : List ℕ → List ℕ → Bool
same [] [] = true
same [] (y ∷ ys) = false
same (x ∷ xs) [] = false
same (x ∷ xs) (y ∷ ys) = x == y && same xs ys

abbrev pub balanced : Ledger → Bool
balanced l = same l.debit l.credit

-- A fill takes no more than the amount, at the order's proportional limit.
abbrev pub breaks_limit : FlowIntent → FoldFill → Bool
breaks_limit o f = ltb o.amount f.input || ltb (f.output * o.amount) (f.input * o.min_out)
