-- ===== src/Optimizer/Oracle.antt =====
-- engine/stockmesh/optimizer/oracle.rs: the plans, the quotes and the seeds of the refinement. The oracle is a
-- parameter: a function of the venue and the amount, since a quote describes one immutable state
-- generation. `calls` and `limit` stand together in a meter. The arrays have eight entries, and
-- `edges` is at most eight.
pub mod Refine
pub mod Arrays
pub mod Priced
pub mod Sound
pub mod Seeds
pub mod Refined
use xtxc.Common.{
  ℕ, zero, suc, ◌+◌, ◌-◌, ◌/◌, ◌^◌, Bool, true, false, ◌||◌, Option, none, some, List, [], ◌∷◌, ltb,
  leb, ◌==◌, if◌then◌else◌, set, replicate,
}
use xtxc.Common.Outcome.{
  Outcome, ok, err, panic, work_limit, arithmetic, checked_add, div_word, max_edges, u64_mod,
}
use xtxc.Common.Outcome
use xtxc.Common.Meter.{Metered, lift, pure, ◌>>=◌}
use xtxc.Optimizer.{bit}
use xtxc.Optimizer.Subsets.{count_ones}

abbrev pub Oracle : Type 0
Oracle = ℕ → ℕ → Outcome (ℕ × ℕ)

pub record ExactPlan : Type 0 where
  pub inputs : List ℕ
  pub outputs : List ℕ
  pub output : ℕ
  pub costs : List ℕ
  pub cost : ℕ
  pub oracle_calls : ℕ
  pub exchanges : ℕ
  pub final_step : ℕ
  pub exhausted : Bool

-- `ExactPlan::default()`
abbrev pub empty_plan : ExactPlan
empty_plan = record {
  inputs = replicate max_edges 0;
  outputs = replicate max_edges 0;
  output = 0;
  costs = replicate max_edges 0;
  cost = 0;
  oracle_calls = 0;
  exchanges = 0;
  final_step = 0;
  exhausted = false;
}

-- `match call { Ok(a) => ..., Err(_) => ... }`
abbrev pub caught {ℓ} : {A : Type ℓ} → Outcome A → Outcome (Option A)
caught (ok a) = ok (some a)
caught (err e) = ok none
caught panic = panic

abbrev pub attempt {ℓ} : {A : Type ℓ} → Metered A → Metered (Option A)
attempt c m = (caught (c m).0, (c m).1)

-- A candidate under construction, with the amount and the number of venues left.
pub record Seeding : Type 0 where
  pub candidate : ExactPlan
  pub left : ℕ
  pub remaining : ℕ

-- The venue `i` of a candidate gets its input and the quote for it.
unfoldable pub put_quote : ExactPlan → ℕ → ℕ → ℕ × ℕ → Outcome ExactPlan
put_quote p i input q = Outcome.◌>>=◌ (checked_add u64_mod p.cost q.1 arithmetic) λ cost.
    Outcome.◌>>=◌ (checked_add u64_mod p.output q.0 arithmetic) λ output. ok (record p {
      inputs = set p.inputs i input;
      outputs = set p.outputs i q.0;
      output = output;
      costs = set p.costs i q.1;
      cost = cost;
    })

-- `if valid && candidate.cost <= cost_limit && candidate.output > best.output`
unfoldable pub better_seed : ℕ → ExactPlan → Option Seeding → ExactPlan
better_seed cost_limit best none = best
better_seed cost_limit best (some s) =
    if ltb cost_limit s.candidate.cost || leb s.candidate.output best.output
    then best
    else s.candidate

module _ (oracle : Oracle) where
  unfoldable pub quote : ℕ → ℕ → Metered (ℕ × ℕ)
  quote edge amount m =
      if amount == 0
      then (ok (0, 0), m)
      else if m.used == m.limit
      then (err work_limit, m)
      else (oracle edge amount, record m { used = m.used + 1 })

  -- `for i in 0..edges`, the last `count` of them from `i` on; none where a quote fails.
  unfoldable pub seed_edges : ℕ → ℕ → ℕ → Seeding → Metered (Option Seeding)
  seed_edges zero i mask s = pure (some s)
  seed_edges (suc count) i mask s = elim (bit mask i) [
    | false ↦ seed_edges count (suc i) mask s
    | true ↦ do
      input ← lift (div_word s.left s.remaining)
      answer ← attempt (quote i input)
      elim answer [
        | none ↦ pure none
        | some q ↦ lift (put_quote s.candidate i input q) >>= λ p.
            seed_edges count (suc i) mask
              (record { candidate = p; left = s.left - input; remaining = s.remaining - 1 })
      ]
  ]

  module _ (edges amount cost_limit max_legs : ℕ) where
    -- `for mask in 1..(1 << edges)`, the last `count` of them from `mask` on. It ends with the calls.
    unfoldable pub seed_masks : ℕ → ℕ → ExactPlan → Metered ExactPlan
    seed_masks zero mask best = pure best
    seed_masks (suc count) mask best =
        elim (ltb max_legs (count_ones 16 mask) || ltb amount (count_ones 16 mask)) [
          | true ↦ seed_masks count (suc mask) best
          | false ↦ do
            found ←
                seed_edges edges 0 mask
                  (record { candidate = empty_plan; left = amount; remaining = count_ones 16 mask })
            λ m. elim (m.used == m.limit) [
              | true ↦ (ok (better_seed cost_limit best found), m)
              | false ↦ seed_masks count (suc mask) (better_seed cost_limit best found) m
            ]
        ]
