-- ===== src/Fair/Limits.antt =====
-- engine/stockmesh/fair/mod.rs: what the limits of a band and a crossing at its midpoint promise.
use native.Mathlib.Nat.{mul-le-mul_right, le_trans, le-div_iff_mul-le}
use xtxc.Common.{ℕ, ◌+◌, ◌*◌, ◌≤◌, ◌<◌, ◌-◌, ◌/◌, min, max, ◌≡◌, arith}
use xtxc.Common.Outcome.{ok, scale}
use xtxc.Fair.{
  Band, Side, buy_base, sell_base, min_output, model_output, cross, Crossing, misses, midpoint,
  div_ceil,
}

div_ceil_bound : (n d : ℕ) → 0 < d → n ≤ div_ceil n d * d
div_ceil_bound n d h = grind arith

-- What the user gets for `input` at the band's worse end, on each side.
abbrev pub Worth : Side → Band → ℕ → ℕ → Type 0
Worth buy_base b input out = input * scale ≤ out * b.high
Worth sell_base b input out = input * b.low ≤ out * scale

min_output_cases :
    (b : Band) (input : ℕ) (side : Side) (user_floor out : ℕ)
    → min_output b input side user_floor ≡ ok out
    → (0 < b.high) × (user_floor ≤ out) × (model_output side b input ≤ out)
unfolding min_output
min_output_cases b input side user_floor out h =
    let guarded : max user_floor (model_output side b input) ≡ out = ground arith in
    (ground arith, omega arith, omega arith)

-- A tightened limit is never below the user's own floor, and never below what the band's worse end
-- pays for the input.
pub min_output_tightens :
    (b : Band) (input : ℕ) (side : Side) (user_floor out : ℕ)
    → min_output b input side user_floor ≡ ok out
    → (user_floor ≤ out) × Worth side b input out
min_output_tightens b input buy_base user_floor out h =
    let (p, floor, most) = min_output_cases b input buy_base user_floor out h in
    (floor, le_trans (div_ceil_bound (input * scale) b.high p) (mul-le-mul_right b.high most))
min_output_tightens b input sell_base user_floor out h =
    let (p, floor, most) = min_output_cases b input sell_base user_floor out h in
    (
      floor,
      le_trans (div_ceil_bound (input * b.low) scale (omega arith)) (mul-le-mul_right scale most),
    )

-- The price, the base and the quote of a crossing, and the limits that it has met.
cross_parts :
    (b : Band) (buy_quote buy_min_base seller_base sell_min_quote : ℕ) (c : Crossing)
    → cross b buy_quote buy_min_base seller_base sell_min_quote ≡ ok c
    → (c.price_q32 ≡ b.low + (b.high - b.low) / 2)
      × (c.base ≡ min seller_base (buy_quote * scale / c.price_q32))
      × (c.quote ≡ div_ceil (c.base * c.price_q32) scale)
      × (0 < b.low)
      × (b.low ≤ b.high)
unfolding cross midpoint
cross_parts b buy_quote buy_min_base seller_base sell_min_quote c h = ground arith

cross_limits :
    (b : Band) (buy_quote buy_min_base seller_base sell_min_quote : ℕ) (c : Crossing)
    → cross b buy_quote buy_min_base seller_base sell_min_quote ≡ ok c
    → (c.quote + c.buyer_quote_residual ≡ buy_quote)
      × (c.base + c.seller_base_residual ≡ seller_base)
      × (c.base * b.low ≤ c.quote * scale)
      × (c.quote * scale ≤ c.base * b.high)
      × (c.quote * buy_min_base ≤ c.base * buy_quote)
      × (c.base * sell_min_quote ≤ c.quote * seller_base)
      × (0 < c.base)
unfolding cross misses
cross_limits b buy_quote buy_min_base seller_base sell_min_quote c h = ground arith

-- The largest amount of at most `most` that `cash` buys at a price.
largest :
    (cash price most base : ℕ)
    → 0 < price
    → base ≡ min most (cash / price)
    → (base * price ≤ cash) × ((x : ℕ) → x ≤ most → x * price ≤ cash → x ≤ base)
largest cash price most base p e =
    let whole : cash / price * price ≤ cash = grind arith in
    let less : base ≤ cash / price = omega arith in
    (
      le_trans (mul-le-mul_right price less) whole,
      λ x few paid. let fits : x ≤ cash / price = (le-div_iff_mul-le p).1 paid in omega arith,
    )

div_ceil_least : (n : ℕ) → div_ceil n scale * scale < n + scale
div_ceil_least n = grind arith

-- What a crossing is.
pub record Crossed (b : Band) (buy_quote buy_min_base seller_base sell_min_quote : ℕ) (c : Crossing)
    : Type 0 where
  pub buyer_kept : c.quote + c.buyer_quote_residual ≡ buy_quote
  pub seller_kept : c.base + c.seller_base_residual ≡ seller_base
  pub above : c.base * b.low ≤ c.quote * scale
  pub below : c.quote * scale ≤ c.base * b.high
  pub buyer_limit : c.quote * buy_min_base ≤ c.base * buy_quote
  pub seller_limit : c.base * sell_min_quote ≤ c.quote * seller_base
  pub some_base : 0 < c.base
  pub middle : (2 * c.price_q32 ≤ b.low + b.high) × (b.low + b.high ≤ 2 * c.price_q32 + 1)
  pub paid :
      (c.base * c.price_q32 ≤ c.quote * scale) × (c.quote * scale < c.base * c.price_q32 + scale)
  pub affordable : c.base * c.price_q32 ≤ buy_quote * scale
  pub largest_base : (x : ℕ) → x ≤ seller_base → x * c.price_q32 ≤ buy_quote * scale → x ≤ c.base

-- A crossing conserves both assets, lies within the band, and meets both owners' limits. Its price is
-- the middle of the band, rounded down; the quote is the base at that price, rounded up; and the seller
-- has no larger base to sell that the buyer's quote pays for at that price.
pub cross_fair :
    (b : Band) (buy_quote buy_min_base seller_base sell_min_quote : ℕ) (c : Crossing)
    → cross b buy_quote buy_min_base seller_base sell_min_quote ≡ ok c
    → Crossed b buy_quote buy_min_base seller_base sell_min_quote c
cross_fair b buy_quote buy_min_base seller_base sell_min_quote c h =
    let (price, base, quote, some_low, ordered) =
      cross_parts b buy_quote buy_min_base seller_base sell_min_quote c h in
    let (buyer_kept, seller_kept, above, below, buyer_limit, seller_limit, some_base) =
      cross_limits b buy_quote buy_min_base seller_base sell_min_quote c h in
    let (affordable, most) =
      largest (buy_quote * scale) c.price_q32 seller_base c.base (omega arith) base in
    record {
      buyer_kept = buyer_kept;
      seller_kept = seller_kept;
      above = above;
      below = below;
      buyer_limit = buyer_limit;
      seller_limit = seller_limit;
      some_base = some_base;
      middle = (omega arith, omega arith);
      paid = (
        rw quote (div_ceil_bound (c.base * c.price_q32) scale (omega arith)),
        rw quote (div_ceil_least (c.base * c.price_q32)),
      );
      affordable = affordable;
      largest_base = most;
    }
