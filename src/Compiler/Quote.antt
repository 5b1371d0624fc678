-- ===== src/Compiler/Quote.antt =====
-- engine/stockmesh/compiler/mod.rs: what a quote of a valid curve is, and how it grows.
use xtxc.Common.{ℕ, ◌+◌, ◌/◌, ◌≤◌, ◌<◌, ◌≡◌, ◌↔◌, List, arith, take}
use xtxc.Common.Outcome.{ok, err, Error, max_atoms, max_rate, scale, as_u64}
use xtxc.Compiler.{Segment, Curve, validate, quote}
use xtxc.Compiler.Bands.{
  area, total, Falls, area-le, area_mono, area_concave, validate_bands-Falls, quote_bands-area,
  validate_bands_passes,
}

abbrev pub bands : Curve → List Segment
bands c = take c.len c.segments

-- What `validate` checks.
pub record IsValid (c : Curve) : Type 0 where
  pub falls : Falls max_rate (bands c)
  pub capacity_total : c.capacity ≡ total (bands c)
  pub capacity_le : c.capacity ≤ max_atoms
  pub len_le : c.len ≤ 16
  pub len_pos : 0 < c.len

pub validate-IsValid : (c : Curve) → validate c ≡ ok tt → IsValid c
unfolding validate
validate-IsValid c h = ground (arith, validate_bands-Falls 0 max_rate (bands c) c.capacity)

pub IsValid-validate : (c : Curve) → IsValid c → validate c ≡ ok tt
unfolding validate
IsValid-validate c v = ground (arith, validate_bands_passes 0 max_rate (bands c))

-- Validation accepts a curve exactly when it has between one and sixteen bands, none empty, whose
-- rates fall from the largest rate on, and its capacity is their sum and at most the largest
-- amount.
pub validate_iff : (c : Curve) → (validate c ≡ ok tt) ↔ IsValid c
validate_iff c = (validate-IsValid c, IsValid-validate c)

-- A quote of a valid curve within its capacity neither fails nor overflows: it is the area under
-- the first atoms, rounded down.
pub quote-area :
    (c : Curve) (x : ℕ) → IsValid c → x ≤ c.capacity → quote c x ≡ ok (area x (bands c) / scale)
unfolding quote as_u64
quote-area c x v h = ground (
  arith,
  IsValid-validate c v,
  area-le x max_rate (bands c) v.falls,
  quote_bands-area x 0 (bands c),
)

-- Beyond the capacity a valid curve gives no quote.
pub quote_beyond : (c : Curve) (x : ℕ) → IsValid c → c.capacity < x → quote c x ≡ err Error.capacity
unfolding quote
quote_beyond c x v h = ground (arith, IsValid-validate c v)

-- More input never gets less output.
pub quote_mono :
    (c : Curve) (x y a b : ℕ)
    → IsValid c
    → x ≤ y
    → y ≤ c.capacity
    → quote c x ≡ ok a
    → quote c y ≡ ok b
    → a ≤ b
quote_mono c x y a b v h k p q =
    ground (arith, quote-area c x v, quote-area c y v, area_mono x y (bands c) h)

-- Returns diminish: the same `d` atoms, put in after `y`, get at most one atom more than put in
-- after an earlier `x`; the one atom is the rounding.
pub quote_concave :
    (c : Curve) (d x y p q r s : ℕ)
    → IsValid c
    → x ≤ y
    → y + d ≤ c.capacity
    → quote c x ≡ ok p
    → quote c (x + d) ≡ ok q
    → quote c y ≡ ok r
    → quote c (y + d) ≡ ok s
    → s + p ≤ q + r + 1
quote_concave c d x y p q r s v h k hp hq hr hs = ground (
  arith,
  quote-area c x v,
  quote-area c (x + d) v,
  quote-area c y v,
  quote-area c (y + d) v,
  area_concave d x y max_rate (bands c) v.falls h,
)
