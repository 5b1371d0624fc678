-- ===== src/Optimizer/Subsets.antt =====
-- engine/stockmesh/optimizer/mod.rs: the loop over the subsets and the choice among the finalists
-- (`search_with`).
use xtxc.Common.{
  ℕ, zero, suc, ◌+◌, ◌-◌, ◌/◌, ◌%◌, ◌^◌, bit_and, Bool, true, false, not, ◌&&◌, ◌||◌, none, List,
  [], ◌∷◌, ltb, ◌==◌, if◌then◌else◌, length, take, replicate,
}
use xtxc.Common.Outcome.{
  Error, Outcome, ok, err, panic, bounds, invalid_amount, invalid_curve, reject, max_atoms,
  max_edges, max_legs,
}
use xtxc.Common.Outcome
use xtxc.Common.Meter.{Metered, charge, lift, pure, ◌>>=◌, ◌>>◌}
use xtxc.Compiler.{Curve, Snapshot}
use xtxc.Optimizer.{Allocation}
use xtxc.Optimizer.Search.{
  SearchReport, exact_output, independent, check_venues, add_errors, query, max_finalists,
}

-- `mask.count_ones()` on the first `bits` bits.
unfoldable pub count_ones : ℕ → ℕ → ℕ
count_ones zero mask = 0
count_ones (suc bits) mask = mask % 2 + count_ones bits (mask / 2)

unfoldable pub same_inputs : List ℕ → List ℕ → Bool
same_inputs [] [] = true
same_inputs [] (y ∷ ys) = false
same_inputs (x ∷ xs) [] = false
same_inputs (x ∷ xs) (y ∷ ys) = x == y && same_inputs xs ys

unfoldable pub repeated : Allocation → List Allocation → Bool
repeated p [] = false
repeated p (f ∷ fs) = same_inputs f.inputs p.inputs || repeated p fs

-- A plan enters in front of the first finalist that it beats; those beyond the fourth place go.
unfoldable pub rank : Allocation → List Allocation → List Allocation
rank p [] = p ∷ []
rank p (f ∷ fs) = if ltb f.output p.output then p ∷ f ∷ fs else f ∷ rank p fs

unfoldable pub enlist : Allocation → List Allocation → List Allocation
enlist p fs = if repeated p fs then fs else take max_finalists (rank p fs)

pub record Shortlist : Type 0 where
  pub finalists : List Allocation
  pub masks_considered : ℕ
  pub feasible_allocations : ℕ

-- `match query(...)`: a subset without the capacity is passed over.
abbrev pub admit_plan : Shortlist → Outcome Allocation → Outcome Shortlist
admit_plan s (ok p) = ok (record s {
  finalists = enlist p s.finalists;
  feasible_allocations = s.feasible_allocations + 1;
})
admit_plan s (err Error.capacity) = ok s
admit_plan s (err e) = err e
admit_plan s panic = panic

module _ (snapshots : List Snapshot) (curves : List Curve) (amount eligible legs : ℕ) where
  unfoldable pub try_mask : ℕ → Shortlist → Metered Shortlist
  try_mask mask s m =
      elim (not (bit_and mask (255 - eligible) == 0) || ltb legs (count_ones 8 mask)) [
        | true ↦ (ok s, m)
        | false ↦
            let counted : Shortlist = record s { masks_considered = s.masks_considered + 1 } in
            elim (independent snapshots mask) [
              | false ↦ (ok counted, m)
              | true ↦
                  let answer = query curves amount mask true m in
                  (admit_plan counted answer.0, answer.1)
            ]
      ]

  -- `for m in 1..(1 << curves.len())`, the last `count` of them.
  unfoldable pub try_masks : ℕ → ℕ → Shortlist → Metered Shortlist
  try_masks zero mask s = pure s
  try_masks (suc count) mask s = do charge 1; t ← try_mask mask s; try_masks count (suc mask) t

pub record Choice : Type 0 where
  pub best : Allocation
  pub simulations : ℕ

unfoldable pub better_plan : Allocation → ℕ → Choice → Choice
better_plan candidate exact c = record {
  best =
      if c.best.mask == 0 || ltb c.best.output exact
      then record candidate { output = exact }
      else c.best;
  simulations = c.simulations + 1;
}

unfoldable pub choose_best : List Snapshot → List Allocation → Choice → Metered Choice
choose_best snapshots [] c = pure c
choose_best snapshots (p ∷ ps) c = do
  charge (length snapshots)
  exact ← lift (exact_output snapshots p)
  choose_best snapshots ps (better_plan p exact c)

abbrev pub no_plan : Allocation
no_plan = record { inputs = replicate max_edges 0; output = 0; mask = 0 }

unfoldable pub report : ℕ → Shortlist → Choice → Outcome SearchReport
report upper s c = Outcome.◌>>◌ (reject (ltb upper c.best.output) invalid_curve) (
    ok (record {
      plan = c.best;
      certificate = record {
        upper_output = upper;
        achieved_output = c.best.output;
        gap_atoms = upper - c.best.output;
      };
      stats = record {
        masks_considered = s.masks_considered;
        feasible_allocations = s.feasible_allocations;
        exact_simulations = c.simulations;
      };
    }))

-- `search_with`, with the query of `search_reference`.
unfoldable pub search_reference : List Snapshot → List Curve → ℕ → ℕ → ℕ → Metered SearchReport
search_reference snapshots curves amount eligible legs = do
  lift (
      reject
        (not (length snapshots == length curves)
          || length snapshots == 0
          || ltb max_edges (length snapshots)
          || legs == 0
          || ltb max_legs legs)
        bounds)
  lift (reject (amount == 0 || ltb max_atoms amount) invalid_amount)
  lift (check_venues eligible 0 [] none snapshots curves)
  relaxed ← query curves amount eligible false
  upper ← lift (add_errors eligible 0 curves relaxed.output)
  s ←
      try_masks snapshots curves amount eligible legs (2 ^ length curves - 1) 1
        (record { finalists = []; masks_considered = 0; feasible_allocations = 0 })
  lift (reject (length s.finalists == 0) Error.capacity)
  c ← choose_best snapshots s.finalists (record { best = no_plan; simulations = 0 })
  lift (report upper s c)
