-- ===== src/Compiler/Chords.antt =====
-- engine/stockmesh/compiler/mod.rs: the arm of `compile` for constant-product pools, which covers
-- the pool's curve by at most sixteen chords and splits the worst interval first. The live
-- entries of the arrays `boundaries`, `values`, `tangents` and `gaps` are lists.
use xtxc.Common.{
  ℕ, zero, suc, ◌+◌, ◌-◌, ◌*◌, ◌/◌, ◌%◌, min, max, true, not, ◌&&◌, ◌++◌, Option, none, some, List,
  [], ◌∷◌, leb, ltb, if◌then◌else◌, set,
}
use xtxc.Common.Outcome.{
  Outcome, ok, ◌>>=◌, ◌>>◌, reject, invalid_curve, add_word, mul_word, sub_word, div_word, index,
  ceil_div, as_u64, max_rate, max_segments, scale, u64_mod, u128_mod,
}
use xtxc.Common.Meter.{Metered, charge, lift, pure, fail}
use xtxc.Common.Meter
use xtxc.Compiler.{Segment, Curve, pad, validate, validate_cp}

unfoldable pub cp_fp : ℕ → ℕ → ℕ → ℕ → Outcome ℕ
cp_fp r y f x = do
  n ← mul_word u128_mod (y * x) f
  let d = r * 1_000_000 + x * f
  q ← div_word n d
  whole ← mul_word u128_mod q scale
  part ← mul_word u128_mod (n % d) scale
  add_word u128_mod whole (part / d)

unfoldable pub derivative_upper : ℕ → ℕ → ℕ → ℕ → Outcome ℕ
derivative_upper r y f x = do
  let d = r * 1_000_000 + x * f
  n ← mul_word u128_mod (y * f) scale
  first ← ceil_div n d
  m ← mul_word u128_mod first r
  m' ← mul_word u128_mod m 1_000_000
  ceil_div m' d

pub record Chords : Type 0 where
  pub boundaries : List ℕ
  pub values : List ℕ
  pub tangents : List ℕ
  pub gaps : List ℕ

abbrev pub insert_at : ℕ → ℕ → List ℕ → List ℕ
insert_at zero v xs = v ∷ xs
insert_at (suc i) v [] = v ∷ []
insert_at (suc i) v (x ∷ xs) = x ∷ insert_at i v xs

-- The widest gap among the `rounds` intervals from `i` on, the first of equal ones.
unfoldable pub pick : ℕ → ℕ → Chords → Option ℕ → ℕ → Metered (Option ℕ)
pick zero i c best worst = pure best
pick (suc rounds) i c best worst = Meter.◌>>◌ (charge 1) (
    Meter.◌>>=◌ (lift (index c.boundaries i)) λ a.
      Meter.◌>>=◌ (lift (index c.boundaries (suc i))) λ b.
        Meter.◌>>=◌ (lift (sub_word b a)) λ width. Meter.◌>>=◌ (lift (index c.gaps i)) λ gap.
          let better = not (leb width 1) && elim best [ none ↦ true | some _ ↦ ltb worst gap ] in
          pick rounds (suc i) c (if better then some i else best) (if better then gap else worst))

-- `tangents[j].saturating_sub(slope) * width` on the interval from `j`.
unfoldable pub gap_of : Chords → ℕ → Outcome ℕ
gap_of c j = do
  a ← index c.boundaries j
  b ← index c.boundaries (suc j)
  width ← sub_word b a
  fa ← index c.values j
  fb ← index c.values (suc j)
  rise ← sub_word fb fa
  slope ← div_word rise width
  tangent ← index c.tangents j
  mul_word u128_mod (tangent - slope) width

-- Split the interval from `i` in the middle.
unfoldable pub split : ℕ → ℕ → ℕ → ℕ → Chords → Outcome Chords
unfolding gap_of
split r y f i c = do
  a ← index c.boundaries i
  b ← index c.boundaries (suc i)
  width ← sub_word b a
  middle ← add_word u64_mod a (width / 2)
  value ← cp_fp r y f middle
  tangent ← derivative_upper r y f middle
  let c' = record c {
    boundaries = insert_at (suc i) middle c.boundaries;
    values = insert_at (suc i) value c.values;
    tangents = insert_at (suc i) tangent c.tangents;
  }
  left ← gap_of c' i
  right ← gap_of c' (suc i)
  ok (record c' { gaps = insert_at (suc i) right (set c.gaps i left) })

-- `while n < MAX_SEGMENTS`, from `n` intervals on with `rounds` more to come.
unfoldable pub split_all : ℕ → ℕ → ℕ → ℕ → ℕ → Chords → Metered (ℕ × Chords)
split_all zero r y f n c = pure (n, c)
split_all (suc rounds) r y f n c = Meter.◌>>=◌ (pick n 0 c none 0) λ best. elim best [
  | none ↦ pure (n, c)
  | some i ↦ Meter.◌>>=◌ (lift (split r y f i c)) λ c'. split_all rounds r y f (suc n) c'
]

-- What the last loop carries: the bands so far, the integral, the error and the last slope.
pub record Chain : Type 0 where
  pub chain_bands : List Segment
  pub integral : ℕ
  pub error_fp : ℕ
  pub previous : ℕ

unfoldable pub chord_step : Chords → ℕ → Chain → Outcome Chain
chord_step c i s = do
  a ← index c.boundaries i
  b ← index c.boundaries (suc i)
  width ← sub_word b a
  fa ← index c.values i
  fb ← index c.values (suc i)
  rise ← sub_word fb fa
  steep ← div_word rise width
  steep' ← as_u64 steep
  let slope = min steep' s.previous
  tangent ← index c.tangents i
  above ← add_word u128_mod fa 1
  start ← sub_word above s.integral
  spread ← mul_word u128_mod (tangent - slope) width
  gap ← add_word u128_mod start spread
  integral' ← add_word u128_mod s.integral (slope * width)
  ok (record {
    chain_bands = s.chain_bands ++ record { input_capacity = width; marginal_q32 = slope } ∷ [];
    integral = integral';
    error_fp = max s.error_fp gap;
    previous = slope;
  })

unfoldable pub chain : ℕ → ℕ → Chords → Chain → Metered Chain
unfolding chord_step
chain zero i c s = pure s
chain (suc rounds) i c s =
    Meter.◌>>◌ (charge 1) (Meter.◌>>=◌ (lift (chord_step c i s)) λ s'. chain rounds (suc i) c s')

unfoldable pub first_chord : ℕ → ℕ → ℕ → ℕ → Outcome Chords
first_chord r y f capacity = do
  tangent ← derivative_upper r y f 0
  reject (ltb max_rate tangent) invalid_curve
  value ← cp_fp r y f capacity
  slope ← div_word value capacity
  gap ← mul_word u128_mod (tangent - slope) capacity
  ok (record {
    boundaries = 0 ∷ capacity ∷ [];
    values = 0 ∷ value ∷ [];
    tangents = tangent ∷ 0 ∷ [];
    gaps = gap ∷ [];
  })

-- The error bounds and the final check.
unfoldable pub close_curve : ℕ → ℕ → ℕ → ℕ → Chain → Outcome Curve
close_curve r y capacity n s = do
  upper ← ceil_div s.error_fp scale
  upper' ← as_u64 upper
  ratio ← ceil_div y r
  lower ← add_word u128_mod ratio 1
  lower' ← as_u64 lower
  let c : Curve = record {
    segments = pad s.chain_bands;
    len = n;
    capacity = capacity;
    upper_error_atoms = upper';
    lower_error_atoms = lower';
  }
  validate c
  ok c

abbrev pub no_chain : Chain
no_chain = record { chain_bands = []; integral = 0; error_fp = 0; previous = max_rate }

-- The arm `Model::ConstantProduct` of `compile`.
unfoldable pub compile_product : ℕ → ℕ → ℕ → ℕ → Metered Curve
compile_product r y fee capacity = Meter.◌>>◌ (lift (validate_cp r y fee)) (
    Meter.◌>>=◌ (lift (first_chord r y (1_000_000 - fee) capacity)) λ c.
      Meter.◌>>=◌ (split_all (max_segments - 1) r y (1_000_000 - fee) 1 c)
        λ (n, c'). Meter.◌>>=◌ (chain n 0 c' no_chain) λ s. lift (close_curve r y capacity n s))
