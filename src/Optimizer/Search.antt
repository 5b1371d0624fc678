-- ===== src/Optimizer/Search.antt =====
-- engine/stockmesh/optimizer/mod.rs: the search over subsets of venues, with the streaming allocator
-- as its query (`search_reference`).
use xtxc.Common.{
  ℕ, suc, bit_and, bit_or, Bool, true, false, not, ◌&&◌, ◌||◌, Option, none, some, List, [], ◌∷◌,
  ltb, ◌==◌, if◌then◌else◌,
}
use xtxc.Common.Outcome.{
  Error, Outcome, ok, panic, unsupported, identity, aliased_liquidity, arithmetic, ◌>>=◌, ◌>>◌,
  reject, checked_add, u64_mod,
}
use xtxc.Common.Meter.{Metered, WorkMeter, charge, lift, pure, fail}
use xtxc.Common.Meter
use xtxc.Compiler.{Curve, Snapshot, exact_quote, lower_quote}
use xtxc.Optimizer.{Allocation, bit, waterfill}

abbrev pub max_finalists : ℕ
max_finalists = 4

pub record SearchStats : Type 0 where
  pub masks_considered : ℕ
  pub feasible_allocations : ℕ
  pub exact_simulations : ℕ

pub record Certificate : Type 0 where
  pub upper_output : ℕ
  pub achieved_output : ℕ
  pub gap_atoms : ℕ

pub record SearchReport : Type 0 where
  pub plan : Allocation
  pub certificate : Certificate
  pub stats : SearchStats

-- The loop of `exact_output` over the snapshots and their inputs.
unfoldable pub exact_sum : List Snapshot → List ℕ → ℕ → Outcome ℕ
exact_sum [] xs out = ok out
exact_sum (s ∷ ss) [] out = panic
exact_sum (s ∷ ss) (x ∷ xs) out = elim (x == 0) [
  | true ↦ exact_sum ss xs out
  | false ↦ do
    part ← exact_quote s x
    out' ← checked_add u64_mod out part arithmetic
    exact_sum ss xs out'
]

unfoldable pub exact_output : List Snapshot → Allocation → Outcome ℕ
exact_output snapshots plan = exact_sum snapshots plan.inputs 0

-- The loop of `independent`, with the resources of the selected venues before venue `i`.
unfoldable pub independent_from : ℕ → ℕ → ℕ → List Snapshot → Bool
independent_from mask i resources [] = true
independent_from mask i resources (s ∷ ss) =
    if bit mask i
    then bit_and resources s.writable_resources == 0
      && independent_from mask (suc i) (bit_or resources s.writable_resources) ss
    else independent_from mask (suc i) resources ss

unfoldable pub independent : List Snapshot → ℕ → Bool
independent snapshots mask = independent_from mask 0 0 snapshots

-- `snapshots[..i].iter()...any`: an eligible earlier venue of the same market or liquidity; the
-- earlier ones stand with their numbers.
unfoldable pub aliases : ℕ → Snapshot → List (ℕ × Snapshot) → Bool
aliases eligible s [] = false
aliases eligible s ((j, prior) ∷ rest) =
    (bit eligible j && (prior.market == s.market || prior.liquidity_id == s.liquidity_id))
    || aliases eligible s rest

abbrev pub other_pair : Option (ℕ × ℕ) → ℕ × ℕ → Bool
other_pair none q = false
other_pair (some p) q = not (p.0 == q.0 && p.1 == q.1)

-- The loop that checks the eligible venues.
unfoldable pub check_venues :
    ℕ → ℕ → List (ℕ × Snapshot) → Option (ℕ × ℕ) → List Snapshot → List Curve → Outcome (Unit {0})
check_venues eligible i earlier pair [] curves = ok tt
check_venues eligible i earlier pair (s ∷ ss) [] = panic
check_venues eligible i earlier pair (s ∷ ss) (c ∷ cs) = elim (bit eligible i) [
  | false ↦ check_venues eligible (suc i) ((i, s) ∷ earlier) pair ss cs
  | true ↦ do
    reject (s.input_mint == s.output_mint || not s.atomic || not s.enabled) unsupported
    reject (other_pair pair (s.input_mint, s.output_mint)) identity
    reject (ltb s.capacity c.capacity) Error.capacity
    reject (aliases eligible s earlier) aliased_liquidity
    check_venues eligible (suc i) ((i, s) ∷ earlier) (some (s.input_mint, s.output_mint)) ss cs
]

-- The loop that adds the envelope errors to the relaxed output.
unfoldable pub add_errors : ℕ → ℕ → List Curve → ℕ → Outcome ℕ
add_errors eligible i [] upper = ok upper
add_errors eligible i (c ∷ cs) upper = elim (bit eligible i) [
  | false ↦ add_errors eligible (suc i) cs upper
  | true ↦ checked_add u64_mod upper c.upper_error_atoms arithmetic >>= λ upper'.
      add_errors eligible (suc i) cs upper'
]

-- The sum of the conservative quotes in `search_reference`.
unfoldable pub lower_sum : List Curve → List ℕ → ℕ → Outcome ℕ
lower_sum [] xs out = ok out
lower_sum (c ∷ cs) [] out = panic
lower_sum (c ∷ cs) (x ∷ xs) out = elim (ltb 0 x) [
  | false ↦ lower_sum cs xs out
  | true ↦ do
    part ← lower_quote c x
    out' ← checked_add u64_mod out part arithmetic
    lower_sum cs xs out'
]

-- The query of `search_reference`.
unfoldable pub query : List Curve → ℕ → ℕ → Bool → Metered Allocation
query curves amount mask lower = Meter.◌>>=◌ (waterfill curves amount mask) (λ p. elim lower [
  | false ↦ pure p
  | true ↦
      Meter.◌>>=◌ (lift (lower_sum curves p.inputs 0)) (λ out. pure (record p { output = out }))
])
