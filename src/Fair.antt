-- ===== src/Fair.antt =====
-- engine/stockmesh/fair/mod.rs: execution-policy bands by interval consensus, and the midpoint
-- crossing.
pub mod Consensus
pub mod Limits
use xtxc.Common.{
  ℕ, zero, suc, ◌+◌, ◌-◌, ◌*◌, ◌/◌, ◌%◌, min, max, Bool, true, false, not, ◌&&◌, ◌||◌, Option, none,
  some, List, [], ◌∷◌, ltb, leb, ◌==◌, if◌then◌else◌, length,
}
use xtxc.Common.Outcome.{
  Error, Outcome, ok, err, bounds, invalid_curve, venue_unavailable, arithmetic, min_out, ◌>>=◌,
  ◌>>◌, reject, ok_or, scale, u64_mod,
}

abbrev pub max_groups : ℕ
max_groups = 16

pub record Interval : Type 0 where
  pub group : ℕ
  pub low : ℕ
  pub high : ℕ

pub record Band : Type 0 where
  pub low : ℕ
  pub high : ℕ
  pub groups : ℕ
  pub quorum : ℕ

-- `iter().filter(test).count()`
unfoldable pub count_if {ℓ} : {A : Type ℓ} → (A → Bool) → List A → ℕ
count_if test [] = 0
count_if test (x ∷ xs) = (if test x then 1 else 0) + count_if test xs

-- `xs.iter().any(|y| y.group == group)`
unfoldable pub has_group : ℕ → List Interval → Bool
has_group g [] = false
has_group g (x ∷ xs) = x.group == g || has_group g xs

-- Each interval is proper and of a new group; `earlier` are those before it.
unfoldable pub check_intervals : List Interval → List Interval → Outcome (Unit {0})
check_intervals earlier [] = ok tt
check_intervals earlier (x ∷ xs) = do
  reject (x.low == 0 || ltb x.high x.low || has_group x.group earlier) invalid_curve
  check_intervals (x ∷ earlier) xs

-- `sort_unstable` on numbers.
unfoldable pub insert_sorted : ℕ → List ℕ → List ℕ
insert_sorted a [] = a ∷ []
insert_sorted a (b ∷ bs) = if leb a b then a ∷ b ∷ bs else b ∷ insert_sorted a bs

unfoldable pub sort : List ℕ → List ℕ
sort [] = []
sort (a ∷ as') = insert_sorted a (sort as')

unfoldable pub points : List Interval → List ℕ
points [] = []
points (x ∷ xs) = x.low ∷ x.high ∷ points xs

unfoldable pub covering : List Interval → ℕ → ℕ
covering xs p = count_if (λ (x : Interval). leb x.low p && leb p x.high) xs

unfoldable pub through : List Interval → ℕ → ℕ → ℕ
through xs p right = count_if (λ (x : Interval). leb x.low p && leb right x.high) xs

-- The variables of the loop over the points.
pub record Scan : Type 0 where
  pub first : Option ℕ
  pub last : ℕ
  pub ended : Bool

abbrev pub is_some : Option ℕ → Bool
is_some none = false
is_some (some a) = true

abbrev pub get_or_insert : Option ℕ → ℕ → Option ℕ
get_or_insert none p = some p
get_or_insert (some l) p = some l

-- The test of a point.
unfoldable pub visit : List Interval → ℕ → ℕ → Scan → Outcome Scan
visit xs quorum p s =
    if leb quorum (covering xs p)
    then (if s.ended
        then err invalid_curve
        else ok (record { first = get_or_insert s.first p; last = p; ended = s.ended }))
    else ok (record s { ended = s.ended || is_some s.first })

-- The open interval up to the next point.
unfoldable pub bridge : List Interval → ℕ → ℕ → ℕ → Scan → Scan
bridge xs quorum p right s = record s {
  ended = s.ended || (ltb p right && is_some s.first && ltb (through xs p right) quorum);
}

unfoldable pub scan : List Interval → ℕ → List ℕ → Scan → Outcome Scan
scan xs quorum [] s = ok s
scan xs quorum (p ∷ []) s = visit xs quorum p s
scan xs quorum (p ∷ right ∷ ps) s = do
  s' ← visit xs quorum p s
  scan xs quorum (right ∷ ps) (bridge xs quorum p right s')

unfoldable pub consensus : List Interval → ℕ → ℕ → Outcome Band
consensus xs faults max_width_bps = do
  reject
      (ltb (length xs) 3
        || ltb max_groups (length xs)
        || faults == 0
        || leb (length xs) faults
        || leb (length xs) (2 * faults)
        || max_width_bps == 0
        || ltb 2000 max_width_bps)
      bounds
  check_intervals [] xs
  s ←
      scan xs (length xs - faults) (sort (points xs))
        (record { first = none; last = 0; ended = false })
  low ← ok_or s.first venue_unavailable
  reject (ltb (low * max_width_bps) ((s.last - low) * 10_000)) invalid_curve
  ok (record { low = low; high = s.last; groups = length xs; quorum = length xs - faults })

pub data Side : Type 0 where
  buy_base sell_base : Side

abbrev pub try_u64 : ℕ → Outcome ℕ
try_u64 n = if ltb n u64_mod then ok n else err arithmetic

-- `u128::div_ceil` by a divisor above 0
abbrev pub div_ceil : ℕ → ℕ → ℕ
div_ceil n d = n / d + (if n % d == 0 then 0 else 1)

-- `Band::midpoint`
unfoldable pub midpoint : Band → Outcome ℕ
midpoint b = do reject (b.low == 0 || ltb b.high b.low) bounds; ok (b.low + (b.high - b.low) / 2)

abbrev pub model_output : Side → Band → ℕ → ℕ
model_output buy_base b input = div_ceil (input * scale) b.high
model_output sell_base b input = div_ceil (input * b.low) scale

-- `Band::min_output`
unfoldable pub min_output : Band → ℕ → Side → ℕ → Outcome ℕ
min_output b input side user_floor = do
  reject (input == 0 || user_floor == 0 || b.low == 0 || ltb b.high b.low) bounds
  model ← try_u64 (model_output side b input)
  ok (max user_floor model)

pub record Crossing : Type 0 where
  pub base : ℕ
  pub quote : ℕ
  pub buyer_quote_residual : ℕ
  pub seller_base_residual : ℕ
  pub price_q32 : ℕ

-- The limits that a crossing must meet.
unfoldable pub misses : Band → ℕ → ℕ → ℕ → ℕ → ℕ → ℕ → Bool
misses band buy_quote buy_min_base seller_base sell_min_quote base quote =
    base == 0
    || quote == 0
    || ltb buy_quote quote
    || ltb (base * band.high) (quote * scale)
    || ltb (quote * scale) (base * band.low)
    || ltb (base * buy_quote) (quote * buy_min_base)
    || ltb (quote * seller_base) (base * sell_min_quote)

unfoldable pub cross : Band → ℕ → ℕ → ℕ → ℕ → Outcome Crossing
cross band buy_quote buy_min_base seller_base sell_min_quote = do
  reject
      (buy_quote == 0
        || buy_min_base == 0
        || seller_base == 0
        || sell_min_quote == 0
        || band.low == 0
        || ltb band.high band.low)
      bounds
  p ← midpoint band
  affordable ← try_u64 (buy_quote * scale / p)
  let base = min seller_base affordable
  quote ← try_u64 (div_ceil (base * p) scale)
  reject (misses band buy_quote buy_min_base seller_base sell_min_quote base quote) min_out
  ok (record {
    base = base;
    quote = quote;
    buyer_quote_residual = buy_quote - quote;
    seller_base_residual = seller_base - base;
    price_q32 = p;
  })
