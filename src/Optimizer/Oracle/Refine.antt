-- ===== src/Optimizer/Oracle/Refine.antt =====
-- engine/stockmesh/optimizer/oracle.rs: the exchange refinement, `refine_bounded_legs` and its callers.
use xtxc.Common.{
  ℕ, zero, suc, ◌+◌, ◌-◌, ◌/◌, ◌^◌, min, max, Bool, true, false, not, ◌&&◌, ◌||◌, Option, none,
  some, List, [], ◌∷◌, ltb, ◌==◌, if◌then◌else◌, set, get_or,
}
use xtxc.Common.Outcome.{
  Outcome, ok, err, panic, Error, bounds, work_limit, arithmetic, checked_add, sub_word, reject,
  max_edges, max_legs, max_atoms, u32_mod, u64_mod,
}
use xtxc.Common.Outcome
use xtxc.Common.Meter.{Metered, lift, pure, new, ◌>>=◌, ◌>>◌}
use xtxc.Optimizer.Oracle.{Oracle, ExactPlan, empty_plan, attempt, quote, seed_masks}

-- `inputs.iter().filter(|x| **x > 0).count()`
unfoldable pub funded : List ℕ → ℕ
funded [] = 0
funded (x ∷ xs) = (if x == 0 then 0 else 1) + funded xs

-- `total - xs[from] - xs[to] + x + y`, with the checks of each step.
unfoldable pub exchange_total : ℕ → List ℕ → ℕ → ℕ → ℕ → ℕ → Outcome ℕ
exchange_total total xs from to x y = Outcome.◌>>=◌ (sub_word total (get_or xs from 0)) λ t.
    Outcome.◌>>=◌ (sub_word t (get_or xs to 0)) λ u.
      Outcome.◌>>=◌ (checked_add u64_mod u x arithmetic) λ v. checked_add u64_mod v y arithmetic

-- An exchange from `best`: the inputs `a` and `b`, and the quotes for them. It replaces `next` where
-- it is within the cost and brings more.
unfoldable pub propose :
    ℕ → ExactPlan → ℕ → ℕ → ℕ → ℕ → ℕ × ℕ → ℕ × ℕ → ExactPlan → Outcome ExactPlan
propose cost_limit best from to a b qa qb next =
    Outcome.◌>>=◌ (exchange_total best.cost best.costs from to qa.1 qb.1) λ cost.
      elim (ltb cost_limit cost) [
        | true ↦ ok next
        | false ↦
            Outcome.◌>>=◌ (exchange_total best.output best.outputs from to qa.0 qb.0) λ output. ok (
              if ltb next.output output
              then record best {
                inputs = set (set best.inputs from a) to b;
                outputs = set (set best.outputs from qa.0) to qb.0;
                output = output;
                costs = set (set best.costs from qa.1) to qb.1;
                cost = cost;
                exchanges = best.exchanges + 1;
              }
              else next)
      ]

-- Where a round of an exchange scale leaves the search: the best plan, and whether the calls are
-- used up (`break 'refine`).
pub record Refining : Type 0 where
  pub plan : ExactPlan
  pub stopped : Bool

module _ (oracle : Oracle) (edges cost_limit legs : ℕ) where
  -- The exchange of `taken` atoms: two quotes, and the comparison with `next` where both are there.
  unfoldable pub exchange : ExactPlan → ℕ → ℕ → ℕ → ExactPlan → Metered (Option ExactPlan)
  exchange best from to taken next =
      lift (checked_add u64_mod (get_or best.inputs to 0) taken arithmetic) >>= λ b.
      attempt (quote oracle from (get_or best.inputs from 0 - taken)) >>= λ qa.
      attempt (quote oracle to b) >>= λ qb. elim qa [
        | none ↦ pure (some next)
        | some a ↦ elim qb [
          | none ↦ pure (some next)
          | some c ↦
              lift (propose cost_limit best from to (get_or best.inputs from 0 - taken) b a c next)
              >>= λ p. pure (some p)
        ]
      ]

  -- One pair of venues; none where the calls left are fewer than two.
  unfoldable pub try_exchange : ℕ → ExactPlan → ℕ → ℕ → ExactPlan → Metered (Option ExactPlan)
  try_exchange step best from to next m =
      elim (from == to
        || (get_or best.inputs to 0 == 0
            && ltb (min (get_or best.inputs from 0) step) (get_or best.inputs from 0)
            && funded best.inputs == legs)) [
              | true ↦ (ok (some next), m)
              | false ↦ elim (ltb m.limit (min (m.used + 2) (u32_mod - 1))) [
                | true ↦ (ok none, m)
                | false ↦ exchange best from to (min (get_or best.inputs from 0) step) next m
              ]
            ]

  -- `for to in 0..edges`, the last `count` of them from `to` on.
  unfoldable pub scan_to : ℕ → ExactPlan → ℕ → ℕ → ℕ → ExactPlan → Metered (Option ExactPlan)
  scan_to step best from zero to next = pure (some next)
  scan_to step best from (suc count) to next = try_exchange step best from to next >>= λ found.
      elim found [ none ↦ pure none | some p ↦ scan_to step best from count (suc to) p ]

  -- `for from in 0..edges`
  unfoldable pub scan_from : ℕ → ExactPlan → ℕ → ℕ → ExactPlan → Metered (Option ExactPlan)
  scan_from step best zero from next = pure (some next)
  scan_from step best (suc count) from next = elim (get_or best.inputs from 0 == 0) [
    | true ↦ scan_from step best count (suc from) next
    | false ↦ scan_to step best from edges 0 next >>= λ found. elim found [
      | none ↦ pure none
      | some p ↦ scan_from step best count (suc from) p
    ]
  ]

  -- `for _ in 0..32`
  unfoldable pub improve : ℕ → ℕ → ExactPlan → Metered Refining
  improve step zero best = pure (record { plan = best; stopped = false })
  improve step (suc rounds) best = scan_from step best edges 0 best >>= λ found. elim found [
    | none ↦ pure (record { plan = best; stopped = true })
    | some p ↦ elim (p.output == best.output) [
      | true ↦ pure (record { plan = best; stopped = false })
      | false ↦ improve step rounds p
    ]
  ]

  -- `'refine: loop`, on fuel: a step below 2 ^ 47 is halved at most 46 times.
  unfoldable pub refine_loop : ℕ → ℕ → ExactPlan → Metered ExactPlan
  refine_loop zero step best = lift panic
  refine_loop (suc fuel) step best = improve step 32 (record best { final_step = step }) >>= λ r.
      elim r.stopped [
        | true ↦ pure r.plan
        | false ↦ elim (step == 1) [
          | true ↦ pure (record r.plan { final_step = 0 })
          | false ↦ refine_loop fuel (step / 2) r.plan
        ]
      ]

  unfoldable pub check_request : ℕ → Outcome (Unit {0})
  check_request amount =
      Outcome.◌>>◌
        (reject (edges == 0 || ltb max_edges edges || amount == 0 || ltb max_atoms amount) bounds)
        (reject (legs == 0 || ltb max_legs legs) bounds)

  -- The two fields that are set last.
  unfoldable pub close_plan : ExactPlan → Metered ExactPlan
  close_plan p m = (ok (record p { oracle_calls = m.used; exhausted = not (p.final_step == 0) }), m)

  -- From the seeds on.
  unfoldable pub refine_from : ℕ → ExactPlan → Metered ExactPlan
  refine_from amount best m = elim (best.output == 0) [
    | true ↦ (err (if m.used == m.limit then work_limit else Error.capacity), m)
    | false ↦ (refine_loop 64 (max (amount / 2) 1) best >>= close_plan) m
  ]

  unfoldable pub refine_metered : ℕ → Metered ExactPlan
  refine_metered amount = do
    lift (check_request amount)
    best ← seed_masks oracle edges amount cost_limit legs (2 ^ edges - 1) 1 empty_plan
    refine_from amount best

unfoldable pub refine_bounded_legs : ℕ → ℕ → ℕ → ℕ → ℕ → Oracle → Outcome ExactPlan
refine_bounded_legs edges amount limit cost_limit legs oracle =
    (refine_metered oracle edges cost_limit legs amount (new limit)).0

unfoldable pub refine_bounded : ℕ → ℕ → ℕ → ℕ → Oracle → Outcome ExactPlan
refine_bounded edges amount limit cost_limit oracle =
    refine_bounded_legs edges amount limit cost_limit max_legs oracle

-- The oracle of `refine` has no costs.
unfoldable pub free_of_cost : (ℕ → ℕ → Outcome ℕ) → Oracle
free_of_cost oracle i q = Outcome.◌>>=◌ (oracle i q) λ out. ok (out, 0)

unfoldable pub refine : ℕ → ℕ → ℕ → (ℕ → ℕ → Outcome ℕ) → Outcome ExactPlan
refine edges amount limit oracle =
    refine_bounded edges amount limit (u64_mod - 1) (free_of_cost oracle)
