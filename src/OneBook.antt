-- ===== src/OneBook.antt =====
-- engine/stockmesh/onebook/mod.rs: orders over economic exposure, and the continuous matching.
pub mod Matching
pub mod Levels
pub mod Trades
pub mod Scan
pub mod Sorted
pub mod Total
use xtxc.Common.{
  ℕ, zero, suc, ◌+◌, ◌-◌, ◌*◌, min, Bool, true, false, not, ◌&&◌, ◌||◌, Option, none, some, List,
  [], ◌∷◌, ◌++◌, ltb, leb, ◌==◌, ◌!=◌, if◌then◌else◌, length, set, take, replicate, map,
}
use xtxc.Common.Outcome.{
  Error, Outcome, ok, err, panic, bounds, invalid_amount, duplicate, identity, arithmetic, reject,
  ok_or, index, ◌>>=◌, ◌>>◌, sub_word, checked_add, mul_word, max_atoms, u64_mod, u128_mod,
}

abbrev pub max_book_orders : ℕ
max_book_orders = 16

abbrev pub max_claims : ℕ
max_claims = 8

abbrev pub max_matches : ℕ
max_matches = 32

pub data Side : Type 0 where
  buy sell : Side

-- `acceptable_claims` has the array's 8 entries; a key of zeros is 0.
pub record SettlementOptionalOrder : Type 0 where
  pub owner : ℕ
  pub nonce : ℕ
  pub instrument : ℕ
  pub side : Side
  pub exposure_q32 : ℕ
  pub limit_price_q32 : ℕ
  pub acceptable_claims : List ℕ
  pub claim_count : ℕ
  pub delivered_claim : ℕ
  pub max_conversion_bps : ℕ
  pub expires_at_slot : ℕ
  pub arrival_sequence : ℕ

pub record CrossClaimFill : Type 0 where
  pub buyer : ℕ
  pub seller : ℕ
  pub claim : ℕ
  pub exposure_q32 : ℕ
  pub price_q32 : ℕ

-- The fills so far, and by order the exposure filled and left.
pub record MatchReport : Type 0 where
  pub fills : List CrossClaimFill
  pub filled_exposure_q32 : List ℕ
  pub residual_exposure_q32 : List ℕ

unfoldable pub contains : List ℕ → ℕ → Bool
contains [] key = false
contains (c ∷ cs) key = c == key || contains cs key

-- `claim_count` is at most 8 where this is asked.
unfoldable pub contains_claim : SettlementOptionalOrder → ℕ → Bool
contains_claim o claim = contains (take o.claim_count o.acceptable_claims) claim

-- The accepted claims are new ones and not 0; `earlier` are those before them.
unfoldable pub check_claims : List ℕ → List ℕ → Outcome (Unit {0})
check_claims earlier [] = ok tt
check_claims earlier (c ∷ cs) =
    reject (c == 0 || contains earlier c) duplicate >> check_claims (c ∷ earlier) cs

unfoldable pub check_delivery : Side → SettlementOptionalOrder → Outcome (Unit {0})
check_delivery buy o = reject (o.delivered_claim != 0) identity
check_delivery sell o =
    reject (o.delivered_claim == 0 || not (contains_claim o o.delivered_claim)) identity

unfoldable pub validate_order : SettlementOptionalOrder → ℕ → Outcome (Unit {0})
validate_order o slot = do
  reject
      (o.owner == 0
        || o.instrument == 0
        || o.exposure_q32 == 0
        || ltb max_atoms o.exposure_q32
        || o.limit_price_q32 == 0
        || o.claim_count == 0
        || ltb max_claims o.claim_count
        || ltb 10_000 o.max_conversion_bps
        || ltb o.expires_at_slot slot)
      invalid_amount
  check_claims [] (take o.claim_count o.acceptable_claims)
  check_delivery o.side o

-- The product of a u64 and a number up to 20,000 fits u128.
unfoldable pub crosses : SettlementOptionalOrder → SettlementOptionalOrder → Bool
crosses buyer seller =
    contains_claim buyer seller.delivered_claim
    && leb (seller.limit_price_q32 * (10_000 + buyer.max_conversion_bps))
        (buyer.limit_price_q32 * 10_000)

unfoldable pub repeats : SettlementOptionalOrder → List SettlementOptionalOrder → Bool
repeats o [] = false
repeats o (a ∷ as') = (a.owner == o.owner && a.nonce == o.nonce) || repeats o as'

unfoldable pub check_orders :
    ℕ → ℕ → List SettlementOptionalOrder → List SettlementOptionalOrder → Outcome (Unit {0})
check_orders slot instrument earlier [] = ok tt
check_orders slot instrument earlier (o ∷ os) = do
  validate_order o slot
  reject (repeats o earlier) duplicate
  reject (instrument != o.instrument) identity
  check_orders slot instrument (o ∷ earlier) os

-- A candidate pair: the numbers and the orders.
pub record Pair : Type 0 where
  pub buyer_index : ℕ
  pub seller_index : ℕ
  pub buyer : SettlementOptionalOrder
  pub seller : SettlementOptionalOrder

-- `(x, ...) < (y, ...)`: the first keys, then what decides when they agree.
abbrev pub before : ℕ → ℕ → Bool → Bool
before x y rest = ltb x y || (x == y && rest)

-- Price and time priority: the higher bid, the earlier one, the lower ask, the earlier one, and the
-- numbers.
unfoldable pub has_priority : Pair → Pair → Bool
has_priority p q = before q.buyer.limit_price_q32 p.buyer.limit_price_q32 (
    before p.buyer.arrival_sequence q.buyer.arrival_sequence (
      before p.seller.limit_price_q32 q.seller.limit_price_q32 (
        before p.seller.arrival_sequence q.seller.arrival_sequence
          (before p.buyer_index q.buyer_index (ltb p.seller_index q.seller_index)))))

unfoldable pub better : Option Pair → Pair → Option Pair
better none p = some p
better (some q) p = if has_priority p q then some p else some q

abbrev pub is_sell : Side → Bool
is_sell buy = false
is_sell sell = true

-- `xs[i] -= v` and `xs[i] = xs[i].checked_add(v)?`
unfoldable pub take_from : List ℕ → ℕ → ℕ → Outcome (List ℕ)
take_from xs i v = do x ← index xs i; y ← sub_word x v; ok (set xs i y)

unfoldable pub give_to : List ℕ → ℕ → ℕ → Outcome (List ℕ)
give_to xs i v = do x ← index xs i; y ← checked_add u64_mod x v arithmetic; ok (set xs i y)

abbrev pub fill_of : Pair → ℕ → CrossClaimFill
fill_of p exposure = record {
  buyer = p.buyer_index;
  seller = p.seller_index;
  claim = p.seller.delivered_claim;
  exposure_q32 = exposure;
  price_q32 = p.seller.limit_price_q32;
}

-- What a pair does to the report.
unfoldable pub trade : Pair → MatchReport → Outcome MatchReport
trade p r = do
  bid ← index r.residual_exposure_q32 p.buyer_index
  ask ← index r.residual_exposure_q32 p.seller_index
  reject (leb max_matches (length r.fills)) bounds
  less ← take_from r.residual_exposure_q32 p.buyer_index (min bid ask)
  residual ← take_from less p.seller_index (min bid ask)
  more ← give_to r.filled_exposure_q32 p.buyer_index (min bid ask)
  filled ← give_to more p.seller_index (min bid ask)
  ok (record {
    fills = r.fills ++ (fill_of p (min bid ask) ∷ []);
    filled_exposure_q32 = filled;
    residual_exposure_q32 = residual;
  })

unfoldable pub exposures : List SettlementOptionalOrder → List ℕ
exposures [] = []
exposures (o ∷ os) = o.exposure_q32 ∷ exposures os

-- `match_continuous` up to the loop.
unfoldable pub open_book : List SettlementOptionalOrder → ℕ → Outcome MatchReport
open_book orders slot = do
  reject (ltb (length orders) 2 || ltb max_book_orders (length orders)) bounds
  first ← index orders 0
  check_orders slot first.instrument [] orders
  ok (record {
    fills = [];
    filled_exposure_q32 = replicate (length orders) 0;
    residual_exposure_q32 = exposures orders;
  })
