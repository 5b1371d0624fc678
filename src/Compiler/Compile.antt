-- ===== src/Compiler/Compile.antt =====
-- engine/stockmesh/compiler/mod.rs: `compile`, from a snapshot to a marginal curve.
use xtxc.Common.{ℕ, ◌-◌, min, not, ◌||◌, List, [], ◌∷◌, ltb, ◌==◌, if◌then◌else◌, length, take}
use xtxc.Common.Outcome
use xtxc.Common.Outcome.{
  Error, unsupported, venue_unavailable, invalid_amount, Outcome, reject, max_atoms,
}
use xtxc.Common.Meter.{Metered, charge, lift, pure, ◌>>=◌, ◌>>◌}
use xtxc.Compiler.{
  Segment, Curve, Snapshot, Model, book, constant_product, pad, empty_curve, validate, book_curve,
  sum_capacity,
}
use xtxc.Compiler.Chords.{compile_product}

-- The loop of `compile` over the levels of a book: the bands that hold the first `left` atoms.
unfoldable pub fill_bands : ℕ → List Segment → Metered (List Segment)
fill_bands left [] = pure []
fill_bands left (level ∷ levels) = do
  charge 1
  let rest : Metered (List Segment) = do
    bands ← fill_bands (left - min left level.input_capacity) levels
    pure (record level { input_capacity = min left level.input_capacity } ∷ bands)
  if left == 0 then pure [] else rest

-- The book covers what the snapshot offers.
unfoldable pub check_book : ℕ → List Segment → ℕ → Outcome (Unit {0})
check_book available levels len = Outcome.◌>>=◌ (sum_capacity 0 (take len levels)) λ total.
    Outcome.◌>>◌ (validate (book_curve levels len total))
      (reject (ltb total available) Error.capacity)

-- The arm `Model::Book` of `compile`.
unfoldable pub compile_book : ℕ → List Segment → ℕ → ℕ → Metered Curve
compile_book available levels len capacity = do
  lift (check_book available levels len)
  bands ← fill_bands capacity (take len levels)
  pure (record empty_curve { segments = pad bands; len = length bands; capacity = capacity })

unfoldable pub compile_model : Model → ℕ → ℕ → Metered Curve
compile_model (book levels len) available capacity = compile_book available levels len capacity
compile_model (constant_product r y fee) available capacity = compile_product r y fee capacity

unfoldable pub compile : Snapshot → ℕ → Metered Curve
compile s horizon = do
  lift (reject (not s.atomic) unsupported)
  lift (reject (not s.enabled) venue_unavailable)
  lift (
      reject (s.capacity == 0 || ltb max_atoms s.capacity || horizon == 0 || ltb max_atoms horizon)
        invalid_amount)
  compile_model s.model s.capacity (min s.capacity horizon)
