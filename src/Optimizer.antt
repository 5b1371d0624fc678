-- ===== src/Optimizer.antt =====
-- engine/stockmesh/optimizer/mod.rs: the streaming allocator `waterfill`. The arrays `cursor` and
-- `plan.inputs`, which are indexed like `curves`, are a list of lanes, one for each curve.
pub mod Price
pub mod Choice
pub mod Lanes
pub mod Waterfill
pub mod Optimal
pub mod Progress
pub mod Total
pub mod Search
pub mod Subsets
pub mod Sound
pub mod Oracle
use xtxc.Common.{
  ℕ, zero, suc, ◌+◌, ◌-◌, ◌*◌, ◌/◌, ◌%◌, ◌^◌, min, bit_or, Bool, true, false, ◌||◌, Option, none,
  some, List, [], ◌∷◌, ◌++◌, ltb, leb, ◌==◌, if◌then◌else◌, length, get_elem?, take, map, replicate,
}
use xtxc.Common.Outcome
use xtxc.Common.Outcome.{
  Outcome, ok, panic, Error, invalid_amount, bounds, reject, ok_or, add_word, as_u64, max_atoms,
  max_edges, scale, u64_mod, u128_mod,
}
use xtxc.Common.Meter.{Metered, charge, lift, pure, ◌>>=◌, ◌>>◌}
use xtxc.Compiler.{Segment, Curve, validate}

pub record Allocation : Type 0 where
  pub inputs : List ℕ
  pub output : ℕ
  pub mask : ℕ

-- `mask & (1 << i) != 0`
abbrev pub bit : ℕ → ℕ → Bool
bit mask i = mask / 2 ^ i % 2 == 1

pub record Lane : Type 0 where
  pub curve : Curve
  pub selected : Bool
  pub cursor : ℕ
  pub input : ℕ

-- The lanes at the start, from index `i` on.
unfoldable pub lanes_of : ℕ → ℕ → List Curve → List Lane
lanes_of mask i [] = []
lanes_of mask i (c ∷ cs) =
    record { curve = c; selected = bit mask i; cursor = 0; input = 0 } ∷ lanes_of mask (suc i) cs

-- The next band of a lane: none where the venue is not selected or its bands are used up.
unfoldable pub head_band : Lane → Option Segment
head_band l = if l.selected then get_elem? (take l.curve.len l.curve.segments) l.cursor else none

-- The first lane wins among equal rates.
unfoldable pub prefer : ℕ → Option Segment → Option (ℕ × Segment) → Option (ℕ × Segment)
prefer i none best = best
prefer i (some s) none = some (i, s)
prefer i (some s) (some (j, t)) =
    if ltb t.marginal_q32 s.marginal_q32 then some (i, s) else some (j, t)

unfoldable pub pick_lane : ℕ → List Lane → Option (ℕ × Segment) → Metered (Option (ℕ × Segment))
pick_lane i [] best = pure best
pick_lane i (l ∷ ls) best = do charge 1; pick_lane (suc i) ls (prefer i (head_band l) best)

-- `plan.inputs[i] += take; cursor[i] += 1`
unfoldable pub pour : ℕ → ℕ → List Lane → Outcome (List Lane)
pour i atoms [] = panic
pour zero atoms (l ∷ ls) =
    Outcome.◌>>=◌ (add_word u64_mod l.input atoms)
      λ input. ok (record l { cursor = l.cursor + 1; input = input } ∷ ls)
pour (suc i) atoms (l ∷ ls) = Outcome.◌>>=◌ (pour i atoms ls) λ ls'. ok (l ∷ ls')

-- What the loop leaves: the lanes, the score and the mask of the venues used.
pub record Filled : Type 0 where
  pub lanes : List Lane
  pub score : ℕ
  pub used_mask : ℕ

-- One round, and `next` for the rounds to come.
unfoldable pub round : (ℕ → Filled → Metered Filled) → ℕ → Filled → Metered Filled
round next remaining f = do
  best ← pick_lane 0 f.lanes none
  (i, s) ← lift (ok_or best Error.capacity)
  lanes ← lift (pour i (min remaining s.input_capacity) f.lanes)
  score ← lift (add_word u128_mod f.score (min remaining s.input_capacity * s.marginal_q32))
  next (remaining - min remaining s.input_capacity)
      (record { lanes = lanes; score = score; used_mask = bit_or f.used_mask (2 ^ i) })

-- `while remaining > 0`. Each round uses up a band, so that `fuel` from their number on is enough.
unfoldable pub fill : ℕ → ℕ → Filled → Metered Filled
fill zero remaining f = if remaining == 0 then pure f else lift panic
fill (suc fuel) remaining f =
    let more = round (fill fuel) remaining f in if remaining == 0 then pure f else more

-- The selected curves pass `validate`.
unfoldable pub validate_lanes : List Lane → Outcome (Unit {0})
validate_lanes [] = ok tt
validate_lanes (l ∷ ls) =
    Outcome.◌>>◌ (if l.selected then validate l.curve else ok tt) (validate_lanes ls)

abbrev pub max_bands : ℕ
max_bands = 128

abbrev pub inputs_of : List Lane → List ℕ
inputs_of = map λ l. l.input

unfoldable pub check_waterfill : List Curve → ℕ → ℕ → Outcome (Unit {0})
check_waterfill curves amount mask =
    Outcome.◌>>◌
      (reject
        (length curves == 0 || ltb max_edges (length curves) || amount == 0 || ltb max_atoms amount)
        invalid_amount)
      (Outcome.◌>>◌ (reject (mask == 0 || leb (2 ^ length curves) mask) bounds)
        (validate_lanes (lanes_of mask 0 curves)))

unfoldable pub waterfill : List Curve → ℕ → ℕ → Metered Allocation
waterfill curves amount mask = do
  lift (check_waterfill curves amount mask)
  f ← fill max_bands amount (record { lanes = lanes_of mask 0 curves; score = 0; used_mask = 0 })
  output ← lift (as_u64 (f.score / scale))
  pure (record {
    inputs = inputs_of f.lanes ++ replicate (max_edges - length curves) 0;
    output = output;
    mask = f.used_mask;
  })
