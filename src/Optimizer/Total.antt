-- ===== src/Optimizer/Total.antt =====
-- engine/stockmesh/optimizer/mod.rs: `waterfill` finds a plan whenever the selected venues hold the
-- amount and the budget allows.
use native.Mathlib.Nat.{le_refl}
use xtxc.Common.{
  ℕ, suc, ◌+◌, ◌-◌, ◌*◌, ◌/◌, ◌≤◌, ◌<◌, ◌^◌, ◌≡◌, refl, true, List, [], ◌∷◌, ◌++◌, arith,
  Bool-cases, inl, inr, replicate, length, if◌then◌else◌,
}
use xtxc.Common.Outcome.{ok, scale, as_u64, max_rate, max_edges, max_atoms, u32_mod, u64_mod}
use xtxc.Common.Meter.{WorkMeter}
use xtxc.Compiler.{Curve}
use xtxc.Compiler.Bands.{total}
use xtxc.Compiler.Quote.{IsValid, IsValid-validate}
use xtxc.Optimizer.{
  Filled, fill, lanes_of, bit, validate_lanes, waterfill, check_waterfill, Allocation, inputs_of,
  max_bands,
}
use xtxc.Optimizer.Optimal.{lanes_of-Ready, sum-lanes_of}
use xtxc.Compiler.Book.{length-take-le}
use xtxc.Optimizer.Progress.{Fills, fill_runs, bands_left, capacity_left, left_of}

-- Every selected curve is valid, and together they hold `room`.
abbrev pub Admitted : ℕ → ℕ → List Curve → Type 0
Admitted mask i [] = Unit
Admitted mask i (c ∷ cs) = (bit mask i ≡ true → IsValid c) × Admitted mask (suc i) cs

unfoldable pub selected_capacity : ℕ → ℕ → List Curve → ℕ
selected_capacity mask i [] = 0
selected_capacity mask i (c ∷ cs) =
    (if bit mask i then c.capacity else 0) + selected_capacity mask (suc i) cs

start_lanes :
    (mask i : ℕ) (cs : List Curve)
    → Admitted mask i cs
    → (validate_lanes (lanes_of mask i cs) ≡ ok tt)
      × (capacity_left (lanes_of mask i cs) ≡ selected_capacity mask i cs)
      × (bands_left (lanes_of mask i cs) ≤ 16 * length cs)
      × (length (lanes_of mask i cs) ≡ length cs)
unfolding lanes_of validate_lanes capacity_left bands_left selected_capacity left_of total
start_lanes mask i [] a = (refl, refl, omega arith, refl)
start_lanes mask i (c ∷ cs) a =
    let (v, k, b, n) = start_lanes mask (suc i) cs a.1 in
    elim (Bool-cases (bit mask i)) [
      | inl e ↦
          let w = a.0 e in
          rw e (
            rw (IsValid-validate c w) v,
            omega (arith, k, w.capacity_total),
            omega (arith, b, length-take-le c.len c.segments, w.len_le),
            omega (arith, n),
          )
      | inr e ↦ rw e (v, omega (arith, k), omega (arith, b), omega (arith, n))
    ]

check_waterfill_passes :
    (curves : List Curve) (amount mask : ℕ)
    → 0 < length curves
    → length curves ≤ max_edges
    → 0 < amount
    → amount ≤ max_atoms
    → 0 < mask
    → mask < 2 ^ length curves
    → validate_lanes (lanes_of mask 0 curves) ≡ ok tt
    → check_waterfill curves amount mask ≡ ok tt
unfolding check_waterfill
check_waterfill_passes curves amount mask h1 h2 h3 h4 h5 h6 v = ground arith

waterfill_ends :
    (curves : List Curve) (amount mask : ℕ) (m : WorkMeter) (f : Filled)
    → check_waterfill curves amount mask ≡ ok tt
    → (fill max_bands amount
        (record { lanes = lanes_of mask 0 curves; score = 0; used_mask = 0 })
        m).0
      ≡ ok f
    → f.score / scale < u64_mod
    → (waterfill curves amount mask m).0
      ≡ ok (record {
        inputs = inputs_of f.lanes ++ replicate (max_edges - length curves) 0;
        output = f.score / scale;
        mask = f.used_mask;
      })
unfolding waterfill as_u64
waterfill_ends curves amount mask m f checked ran small = ground arith

-- With between one and eight curves, a mask that selects only valid ones, an amount within their
-- joint capacity and the largest amount, and 1024 units of work, `waterfill` finds a plan.
pub waterfill_total :
    (curves : List Curve) (amount mask : ℕ) (m : WorkMeter)
    → 0 < length curves
    → length curves ≤ max_edges
    → 0 < amount
    → amount ≤ max_atoms
    → 0 < mask
    → mask < 2 ^ length curves
    → Admitted mask 0 curves
    → amount ≤ selected_capacity mask 0 curves
    → m.used + 1024 ≤ m.limit
    → m.limit < u32_mod
    → (plan : Allocation) × ((waterfill curves amount mask m).0 ≡ ok plan)
unfolding Fills
waterfill_total curves amount mask m h1 h2 h3 h4 h5 h6 adm room budget limit =
    let (v, k, b, n) = start_lanes mask 0 curves adm in
    let (none_in, none_worth) = sum-lanes_of mask 0 curves in
    let start : Filled = record { lanes = lanes_of mask 0 curves; score = 0; used_mask = 0 } in
    let (f, ran, small) = fill_runs 128 amount max_rate start m (record {
      ready = lanes_of-Ready mask 0 curves v;
      room = omega arith;
      rounds = omega arith;
      small = omega arith;
      scored = omega arith;
      budget = omega arith;
      limit = limit;
      price_le = le_refl _;
    }) in
    let checked = check_waterfill_passes curves amount mask h1 h2 h3 h4 h5 h6 v in
    (_, waterfill_ends curves amount mask m f checked ran (omega arith))
