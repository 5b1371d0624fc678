-- ===== src/Compiler.antt =====
-- engine/stockmesh/compiler/mod.rs: marginal curves, venue snapshots, and the compiler of book
-- models. A fixed array is a list, of which the code reads the first `len` entries. A 32-byte
-- key is a number, 0 for the key of zeros; the order of the keys is that of the numbers.
pub mod Bands
pub mod Quote
pub mod Chords
pub mod Compile
pub mod Book
pub mod Product
pub mod Sampled
pub mod Under
use xtxc.Common.{
  ℕ, zero, suc, ◌+◌, ◌-◌, ◌*◌, ◌/◌, min, Bool, true, false, not, ◌||◌, List, [], ◌∷◌, ◌++◌, ltb,
  leb, ◌==◌, ◌!=◌, if◌then◌else◌, length, take, replicate,
}
use xtxc.Common.Outcome
use xtxc.Common.Outcome.{
  Error, arithmetic, invalid_curve, invalid_amount, unsupported, venue_unavailable, Outcome, ok,
  err, panic, ◌>>=◌, ◌>>◌, reject, checked_add, add_word, as_u64, max_atoms, max_rate, max_segments,
  scale, u64_mod, u128_mod,
}

abbrev pub Key : Type 0
Key = ℕ

pub record Segment : Type 0 where
  pub input_capacity : ℕ
  pub marginal_q32 : ℕ

pub record Curve : Type 0 where
  pub segments : List Segment
  pub len : ℕ
  pub capacity : ℕ
  pub upper_error_atoms : ℕ
  pub lower_error_atoms : ℕ

abbrev pub no_segment : Segment
no_segment = record { input_capacity = 0; marginal_q32 = 0 }

-- `[Segment; MAX_SEGMENTS]` with `bands` in front.
abbrev pub pad : List Segment → List Segment
pad bands = bands ++ replicate (max_segments - length bands) no_segment

abbrev pub empty_curve : Curve
empty_curve = record {
  segments = replicate max_segments no_segment;
  len = 0;
  capacity = 0;
  upper_error_atoms = 0;
  lower_error_atoms = 0;
}

-- The loop of `validate`: the total capacity, if the rates never rise.
unfoldable pub validate_bands : ℕ → ℕ → List Segment → Outcome ℕ
validate_bands total prev [] = ok total
validate_bands total prev (s ∷ ss) = do
  reject (s.input_capacity == 0 || ltb prev s.marginal_q32) invalid_curve
  total' ← checked_add u64_mod total s.input_capacity arithmetic
  validate_bands total' s.marginal_q32 ss

-- `Curve::validate`
unfoldable pub validate : Curve → Outcome (Unit {0})
validate c = do
  reject (c.len == 0 || ltb max_segments c.len) invalid_curve
  total ← validate_bands 0 max_rate (take c.len c.segments)
  reject (total != c.capacity || ltb max_atoms total) invalid_curve

-- The loop of `quote`, over the input that is left and the output so far.
unfoldable pub quote_bands : ℕ → ℕ → List Segment → Outcome ℕ
quote_bands input output [] = ok output
quote_bands input output (s ∷ ss) = do
  output' ← add_word u128_mod output (min input s.input_capacity * s.marginal_q32)
  let rest = quote_bands (input - min input s.input_capacity) output' ss
  if input - min input s.input_capacity == 0 then ok output' else rest

-- `Curve::quote`
unfoldable pub quote : Curve → ℕ → Outcome ℕ
quote c input = do
  validate c
  reject (ltb c.capacity input) Error.capacity
  output ← quote_bands input 0 (take c.len c.segments)
  as_u64 (output / scale)

-- `Curve::lower_quote`
unfoldable pub lower_quote : Curve → ℕ → Outcome ℕ
lower_quote c input = do output ← quote c input; ok (output - c.lower_error_atoms)

pub data Model : Type 0 where
  book : List Segment → ℕ → Model
  constant_product : ℕ → ℕ → ℕ → Model

pub record Snapshot : Type 0 where
  pub market : Key
  pub program : Key
  pub input_mint : Key
  pub output_mint : Key
  pub liquidity_id : Key
  pub writable_resources : ℕ
  pub slot : ℕ
  pub generation : ℕ
  pub expires_at_slot : ℕ
  pub capacity : ℕ
  pub atomic : Bool
  pub enabled : Bool
  pub model : Model

-- `try_fold` of `checked_add` over the levels.
unfoldable pub sum_capacity : ℕ → List Segment → Outcome ℕ
sum_capacity total [] = ok total
sum_capacity total (s ∷ ss) = do
  total' ← checked_add u64_mod total s.input_capacity arithmetic
  sum_capacity total' ss

unfoldable pub book_curve : List Segment → ℕ → ℕ → Curve
book_curve levels len total = record empty_curve { segments = levels; len = len; capacity = total }

unfoldable pub validate_cp : ℕ → ℕ → ℕ → Outcome (Unit {0})
validate_cp r y fee =
    reject (r == 0 || y == 0 || ltb max_atoms r || ltb max_atoms y || leb 1_000_000 fee)
      invalid_curve

unfoldable pub exact_model : Model → ℕ → Outcome ℕ
exact_model (book levels len) input = do
  total ← sum_capacity 0 (take len levels)
  quote (book_curve levels len total) input
exact_model (constant_product r y fee) input = do
  validate_cp r y fee
  let net = input * (1_000_000 - fee) / 1_000_000
  as_u64 (y * net / (r + net))

-- `Snapshot::exact_quote`
unfoldable pub exact_quote : Snapshot → ℕ → Outcome ℕ
exact_quote s input = do
  reject (ltb s.capacity input || ltb max_atoms input) Error.capacity
  exact_model s.model input
