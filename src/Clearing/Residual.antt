-- ===== src/Clearing/Residual.antt =====
-- engine/stockmesh/clearing/mod.rs: the residual groups of a fold, the distribution of what a venue
-- paid for one, and the lot fold's validation.
use xtxc.Common.{
  ℕ, suc, ◌-◌, ◌*◌, ◌/◌, ◌%◌, ◌^◌, Bool, true, false, not, ◌&&◌, ◌||◌, Option, none, some, bit_or,
  List, [], ◌∷◌, ltb, ◌==◌, if◌then◌else◌, length, set,
}
use xtxc.Common.Outcome.{
  Error, Outcome, ok, panic, bounds, identity, invalid_amount, arithmetic, balance_invariant, ◌>>=◌,
  ◌>>◌, reject, ok_or, index, checked_add, checked_sub, sub_word, as_u64, u64_mod, max_atoms,
  max_edges, add_word,
}
use xtxc.Clearing.{FlowIntent, FoldFill, FoldReport, max_intents}
use xtxc.Clearing.Fold.{validate_fold}

pub record ResidualGroup : Type 0 where
  pub sell : ℕ
  pub buy : ℕ
  pub amount_in : ℕ
  pub min_out : ℕ
  pub members : ℕ

-- Order `i` joins a group with its remaining amount and floor.
unfoldable pub join : ℕ → ℕ → ℕ → ResidualGroup → Outcome ResidualGroup
join i amount floor g = do
  amount_in ← checked_add u64_mod g.amount_in amount arithmetic
  reject (ltb max_atoms amount_in) invalid_amount
  least ← checked_add u64_mod g.min_out floor arithmetic
  ok (record g { amount_in = amount_in; min_out = least; members = bit_or g.members (2 ^ i) })

-- The first group of the order's pair, or a new one after the `count` before it.
unfoldable pub join_first :
    ℕ → ℕ → FlowIntent → ℕ → ℕ → List ResidualGroup → Outcome (List ResidualGroup)
join_first count i o amount floor [] = do
  reject (count == max_edges) bounds
  g ←
      join i amount floor
        (record { sell = o.sell; buy = o.buy; amount_in = 0; min_out = 0; members = 0 })
  ok (g ∷ [])
join_first count i o amount floor (g ∷ gs) = elim (g.sell == o.sell && g.buy == o.buy) [
  | true ↦ join i amount floor g >>= λ joined. ok (joined ∷ gs)
  | false ↦ join_first (suc count) i o amount floor gs >>= λ rest. ok (g ∷ rest)
]

-- `build_residuals` from order `i` on, with the groups so far.
unfoldable pub build_residuals :
    ℕ → List FlowIntent → List FoldFill → List ResidualGroup → Outcome (List ResidualGroup)
build_residuals i [] fills gs = ok gs
build_residuals i (o ∷ os) [] gs = panic
build_residuals i (o ∷ os) (f ∷ fs) gs = do
  amount ← checked_sub o.amount f.input balance_invariant
  gs' ← elim (amount == 0) [
    | true ↦ reject (ltb f.output o.min_out) Error.min_out >> ok gs
    | false ↦ join_first 0 i o amount (o.min_out - f.output) gs
  ]
  build_residuals (suc i) os fs gs'

unfoldable pub residuals : List FlowIntent → FoldReport → Outcome (List ResidualGroup)
residuals orders r = do
  reject (ltb max_intents (length orders)) bounds
  validate_fold orders r
  build_residuals 0 orders r.fills []

unfoldable pub same_group : ResidualGroup → ResidualGroup → Bool
same_group g h =
    g.sell == h.sell
    && g.buy == h.buy
    && g.amount_in == h.amount_in
    && g.min_out == h.min_out
    && g.members == h.members

unfoldable pub contains : List ResidualGroup → ResidualGroup → Bool
contains [] g = false
contains (h ∷ hs) g = same_group h g || contains hs g

-- The lexicographic order of (owner, nonce).
unfoldable pub precedes : FlowIntent → FlowIntent → Bool
precedes a b = ltb a.owner b.owner || (a.owner == b.owner && ltb a.nonce b.nonce)

-- The loop of `distribute`: the shares of the orders from `i` on, `first` being the least member
-- before them with its number, and `group.amount_in` not 0.
pub record Shares : Type 0 where
  pub out : List ℕ
  pub allocated : ℕ
  pub first : Option (ℕ × FlowIntent)

abbrev pub earliest : ℕ → FlowIntent → Option (ℕ × FlowIntent) → Option (ℕ × FlowIntent)
earliest i o none = some (i, o)
earliest i o (some (j, a)) = if precedes o a then some (i, o) else some (j, a)

abbrev pub is_member : ℕ → ℕ → Bool
is_member members i = members / 2 ^ i % 2 == 1

unfoldable pub share : ℕ → ResidualGroup → FlowIntent → FoldFill → Outcome ℕ
share surplus g o f = do
  residual ← sub_word o.amount f.input
  extra ← as_u64 (surplus * residual / g.amount_in)
  checked_add u64_mod (o.min_out - f.output) extra arithmetic

unfoldable pub share_out :
    ℕ
    → ResidualGroup
    → ℕ
    → List FlowIntent
    → List FoldFill
    → ℕ
    → Option (ℕ × FlowIntent)
    → Outcome Shares
share_out surplus g i [] fs allocated first =
    ok (record { out = []; allocated = allocated; first = first })
share_out surplus g i (o ∷ os) [] allocated first = panic
share_out surplus g i (o ∷ os) (f ∷ fs) allocated first = elim (is_member g.members i) [
  | true ↦ do
    part ← share surplus g o f
    allocated' ← checked_add u64_mod allocated part arithmetic
    rest ← share_out surplus g (suc i) os fs allocated' (earliest i o first)
    ok (record rest { out = part ∷ rest.out })
  | false ↦ do
    rest ← share_out surplus g (suc i) os fs allocated first
    ok (record rest { out = 0 ∷ rest.out })
]

-- `out[first.ok_or(Error::Bounds)?] += dust`
unfoldable pub add_dust : Shares → ℕ → Outcome (List ℕ)
add_dust s dust = do
  target ← ok_or s.first bounds
  part ← index s.out target.0
  total ← add_word u64_mod part dust
  ok (set s.out target.0 total)

unfoldable pub distribute : List FlowIntent → FoldReport → ResidualGroup → ℕ → Outcome (List ℕ)
distribute orders folded g observed_output = do
  expected ← residuals orders folded
  reject (not (contains expected g)) identity
  reject (ltb observed_output g.min_out) Error.min_out
  s ← share_out (observed_output - g.min_out) g 0 orders folded.fills 0 none
  dust ← checked_sub observed_output s.allocated balance_invariant
  add_dust s dust
