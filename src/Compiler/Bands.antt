-- ===== src/Compiler/Bands.antt =====
-- The area under the first atoms of a list of bands: what Curve::quote of
-- engine/stockmesh/compiler/mod.rs computes, without its checks.
use native.Mathlib.Nat.{add-zero, add-suc}
use xtxc.Common.{
  ℕ, zero, suc, ◌+◌, ◌-◌, ◌*◌, ◌≤◌, ◌<◌, min, ◌≡◌, refl, List, [], ◌∷◌, arith, if◌then◌else◌, ltb,
}
use xtxc.Common.Outcome.{ok, u64_mod, u128_mod}
use xtxc.Compiler.{Segment, validate_bands, quote_bands, sum_capacity}

unfoldable pub area : ℕ → List Segment → ℕ
area x [] = 0
area x (s ∷ ss) = min x s.input_capacity * s.marginal_q32 + area (x - min x s.input_capacity) ss

unfoldable pub total : List Segment → ℕ
total [] = 0
total (s ∷ ss) = s.input_capacity + total ss

-- Every band holds something, and the rates fall from `prev` on.
abbrev pub Falls : ℕ → List Segment → Type 0
Falls prev [] = Unit
Falls prev (s ∷ ss) = (0 < s.input_capacity) × (s.marginal_q32 ≤ prev) × Falls s.marginal_q32 ss

pub area-zero : (ss : List Segment) → area 0 ss ≡ 0
unfolding area
area-zero [] = refl
area-zero (s ∷ ss) = grind (arith, area-zero ss)

pub area_mono : (x y : ℕ) (ss : List Segment) → x ≤ y → area x ss ≤ area y ss
unfolding area
area_mono x y [] h = omega arith
area_mono x y (s ∷ ss) h =
    let ih = area_mono (x - min x s.input_capacity) (y - min y s.input_capacity) ss (omega arith) in
    grind (arith, ih)

pub area-le : (x prev : ℕ) (ss : List Segment) → Falls prev ss → area x ss ≤ x * prev
unfolding area
area-le x prev [] f = omega arith
area-le x prev (s ∷ ss) f =
    let ih = area-le (x - min x s.input_capacity) s.marginal_q32 ss f.2 in grind (arith, ih)

pub validate_bands-Falls :
    (t prev : ℕ) (ss : List Segment) (t' : ℕ)
    → validate_bands t prev ss ≡ ok t'
    → Falls prev ss × (t' ≡ t + total ss)
unfolding validate_bands total
validate_bands-Falls t prev [] t' h = (tt, ground arith)
validate_bands-Falls t prev (s ∷ ss) t' h =
    ground (arith, validate_bands-Falls (t + s.input_capacity) s.marginal_q32 ss t')

pub validate_bands_passes :
    (t prev : ℕ) (ss : List Segment)
    → Falls prev ss
    → t + total ss < u64_mod
    → validate_bands t prev ss ≡ ok (t + total ss)
unfolding validate_bands total
validate_bands_passes t prev [] f h = ground arith
validate_bands_passes t prev (s ∷ ss) f h =
    ground (arith, validate_bands_passes (t + s.input_capacity) s.marginal_q32 ss f.2)

pub quote_bands-area :
    (x out : ℕ) (ss : List Segment)
    → out + area x ss < u128_mod
    → quote_bands x out ss ≡ ok (out + area x ss)
unfolding quote_bands area
quote_bands-area x out [] h = ground arith
quote_bands-area x out (s ∷ ss) h = ground (
  arith,
  area-zero ss,
  quote_bands-area (x - min x s.input_capacity) (out + min x s.input_capacity * s.marginal_q32) ss,
)

pub sum_capacity_lem :
    (t : ℕ) (ss : List Segment) → t + total ss < u64_mod → sum_capacity t ss ≡ ok (t + total ss)
unfolding sum_capacity total
sum_capacity_lem t [] h = ground arith
sum_capacity_lem t (s ∷ ss) h = ground (arith, sum_capacity_lem (t + s.input_capacity) ss)

pub sum_capacity-total :
    (t : ℕ) (ss : List Segment) (t' : ℕ) → sum_capacity t ss ≡ ok t' → t' ≡ t + total ss
unfolding sum_capacity total
sum_capacity-total t [] t' h = ground arith
sum_capacity-total t (s ∷ ss) t' h = ground (arith, sum_capacity-total (t + s.input_capacity) ss t')

-- The rate of the band in which atom number `x` falls.
unfoldable pub rate_at : ℕ → List Segment → ℕ
rate_at x [] = 0
rate_at x (s ∷ ss) =
    if ltb x s.input_capacity then s.marginal_q32 else rate_at (x - s.input_capacity) ss

pub area-suc : (x : ℕ) (ss : List Segment) → area (suc x) ss ≡ area x ss + rate_at x ss
unfolding area rate_at
area-suc x [] = refl
area-suc x (s ∷ ss) = grind (arith, area-suc (x - s.input_capacity) ss, area-zero ss)

pub rate_at-le : (x prev : ℕ) (ss : List Segment) → Falls prev ss → rate_at x ss ≤ prev
unfolding rate_at
rate_at-le x prev [] f = omega arith
rate_at-le x prev (s ∷ ss) f =
    ground (arith, rate_at-le (x - s.input_capacity) s.marginal_q32 ss f.2)

pub rate_at-Falls :
    (x y prev : ℕ) (ss : List Segment) → Falls prev ss → x ≤ y → rate_at y ss ≤ rate_at x ss
unfolding rate_at
rate_at-Falls x y prev [] f h = omega arith
rate_at-Falls x y prev (s ∷ ss) f h = ground (
  arith,
  rate_at-le (y - s.input_capacity) s.marginal_q32 ss f.2,
  rate_at-Falls (x - s.input_capacity) (y - s.input_capacity) s.marginal_q32 ss f.2,
)

-- A step of `d` atoms is worth no more at `y` than at an earlier `x`.
pub area_concave :
    (d x y prev : ℕ) (ss : List Segment)
    → Falls prev ss
    → x ≤ y
    → area (y + d) ss + area x ss ≤ area (x + d) ss + area y ss
area_concave zero x y prev ss f h = simp add-zero (omega arith)
area_concave (suc d) x y prev ss f h = simp add-suc (
    omega (
      arith,
      area_concave d x y prev ss f h,
      area-suc (x + d) ss,
      area-suc (y + d) ss,
      rate_at-Falls (x + d) (y + d) prev ss f (omega arith),
    ))
