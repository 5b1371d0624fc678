-- ===== src/OneBook/Trades.antt =====
-- engine/stockmesh/onebook/mod.rs: what the fills of a matching promise.
use xtxc.Common.{
  ℕ, zero, suc, ◌+◌, ◌-◌, min, ◌≡◌, refl, sym, subst, ◌∙◌, ◌<◌, inl, inr, arith, true, false, none,
  List, [], ◌∷◌, ◌++◌, leb, ◌==◌, if◌then◌else◌, All, get_or, set, Option-cases, length, replicate,
}
use xtxc.Common.Outcome.{ok, index, reject, bounds, ok-inj, Outcome-cases, >>=-eq-ok}
use xtxc.Common.Meter.{WorkMeter, lift}
use xtxc.Common.Meter
use xtxc.OneBook.{
  SettlementOptionalOrder, Pair, CrossClaimFill, MatchReport, crosses, is_sell, trade, take_from,
  give_to, exposures, fill_of, open_book, max_matches,
}
use xtxc.OneBook.Matching.{match_loop, match_continuous, scan_buyers}
use xtxc.OneBook.Scan.{Live, AllLive, Uncrossed, scan_buyers-AllLive, scan_buyers-none, From-all}

-- The fill is one of crossing orders, of the claim that the seller delivers, at the seller's price.
pub record Fits (orders : List SettlementOptionalOrder) (f : CrossClaimFill) : Type 0 where
  pub bidder : SettlementOptionalOrder
  pub asker : SettlementOptionalOrder
  pub bought_by : index orders f.buyer ≡ ok bidder
  pub sold_by : index orders f.seller ≡ ok asker
  pub bids : is_sell bidder.side ≡ false
  pub asks : is_sell asker.side ≡ true
  pub cross : crosses bidder asker ≡ true
  pub claimed : f.claim ≡ asker.delivered_claim
  pub priced : f.price_q32 ≡ asker.limit_price_q32
  pub positive : 0 < f.exposure_q32

take_from_get :
    (xs ys : List ℕ) (i v a : ℕ)
    → take_from xs i v ≡ ok ys
    → get_or ys a 0 + (if i == a then v else 0) ≡ get_or xs a 0
unfolding take_from
take_from_get [] ys i v a h = ground arith
take_from_get (x ∷ xs) ys zero v zero h = ground arith
take_from_get (x ∷ xs) ys zero v (suc a) h = ground arith
take_from_get (x ∷ xs) ys (suc i) v zero h = elim (Outcome-cases (index xs i)) [
  | inl (y, e) ↦ let rest = take_from_get xs (set xs i (y - v)) i v 0 (ground arith) in ground arith
  | inr (inl (y, e)) ↦ ground arith
  | inr (inr e) ↦ ground arith
]
take_from_get (x ∷ xs) ys (suc i) v (suc a) h = elim (Outcome-cases (index xs i)) [
  | inl (y, e) ↦ let rest = take_from_get xs (set xs i (y - v)) i v a (ground arith) in ground arith
  | inr (inl (y, e)) ↦ ground arith
  | inr (inr e) ↦ ground arith
]

give_to_get :
    (xs ys : List ℕ) (i v a : ℕ)
    → give_to xs i v ≡ ok ys
    → get_or ys a 0 ≡ get_or xs a 0 + (if i == a then v else 0)
unfolding give_to
give_to_get [] ys i v a h = ground arith
give_to_get (x ∷ xs) ys zero v zero h = ground arith
give_to_get (x ∷ xs) ys zero v (suc a) h = ground arith
give_to_get (x ∷ xs) ys (suc i) v zero h = elim (Outcome-cases (index xs i)) [
  | inl (y, e) ↦ let rest = give_to_get xs (set xs i (y + v)) i v 0 (ground arith) in ground arith
  | inr (inl (y, e)) ↦ ground arith
  | inr (inr e) ↦ ground arith
]
give_to_get (x ∷ xs) ys (suc i) v (suc a) h = elim (Outcome-cases (index xs i)) [
  | inl (y, e) ↦ let rest = give_to_get xs (set xs i (y + v)) i v a (ground arith) in ground arith
  | inr (inl (y, e)) ↦ ground arith
  | inr (inr e) ↦ ground arith
]

-- Every order's exposure is filled or left.
abbrev pub Accounts : List SettlementOptionalOrder → MatchReport → Type 0
Accounts orders r =
    (a : ℕ)
    → get_or r.filled_exposure_q32 a 0 + get_or r.residual_exposure_q32 a 0
      ≡ get_or (exposures orders) a 0

All-snoc {ℓ κ} :
    {A : Type ℓ} (P : A → Type κ) (xs : List A) (x : A) → All P xs → P x → All P (xs ++ (x ∷ []))
All-snoc P [] x h p = (p, tt)
All-snoc P (y ∷ ys) x h p = (h.0, All-snoc P ys x h.1 p)

-- What a trade has read and written.
record Traded (p : Pair) (r r' : MatchReport) : Type 0 where
  bid : ℕ
  ask : ℕ
  less : List ℕ
  more : List ℕ
  read_bid : index r.residual_exposure_q32 p.buyer_index ≡ ok bid
  read_ask : index r.residual_exposure_q32 p.seller_index ≡ ok ask
  took : take_from r.residual_exposure_q32 p.buyer_index (min bid ask) ≡ ok less
  took' : take_from less p.seller_index (min bid ask) ≡ ok r'.residual_exposure_q32
  gave : give_to r.filled_exposure_q32 p.buyer_index (min bid ask) ≡ ok more
  gave' : give_to more p.seller_index (min bid ask) ≡ ok r'.filled_exposure_q32
  fills : r'.fills ≡ r.fills ++ (fill_of p (min bid ask) ∷ [])

trade-Traded : (p : Pair) (r r' : MatchReport) → trade p r ≡ ok r' → Traded p r r'
unfolding trade
trade-Traded p r r' h =
    let (bid, e1, h2) = >>=-eq-ok (index r.residual_exposure_q32 p.buyer_index) _ h in
    let (ask, e2, h3) = >>=-eq-ok (index r.residual_exposure_q32 p.seller_index) _ h2 in
    let (_, _, h4) = >>=-eq-ok (reject (leb max_matches (length r.fills)) bounds) _ h3 in
    let (less, e4, h5) =
      >>=-eq-ok (take_from r.residual_exposure_q32 p.buyer_index (min bid ask)) _ h4 in
    let (residual, e5, h6) = >>=-eq-ok (take_from less p.seller_index (min bid ask)) _ h5 in
    let (more, e6, h7) =
      >>=-eq-ok (give_to r.filled_exposure_q32 p.buyer_index (min bid ask)) _ h6 in
    let (filled, e7, h8) = >>=-eq-ok (give_to more p.seller_index (min bid ask)) _ h7 in
    subst (Traded p r) (ok-inj h8) (record {
      bid = bid;
      ask = ask;
      less = less;
      more = more;
      read_bid = e1;
      read_ask = e2;
      took = e4;
      took' = e5;
      gave = e6;
      gave' = e7;
      fills = refl;
    })

module _ (orders : List SettlementOptionalOrder) where
  trade-Accounts :
      (p : Pair) (r r' : MatchReport) → trade p r ≡ ok r' → Accounts orders r → Accounts orders r'
  trade-Accounts p r r' h v a =
      let t = trade-Traded p r r' h in
      let now = v a in
      let k = take_from_get _ _ _ _ a t.took in
      let k2 = take_from_get _ _ _ _ a t.took' in
      let k3 = give_to_get _ _ _ _ a t.gave in let k4 = give_to_get _ _ _ _ a t.gave' in omega arith

  trade-Fits :
      (p : Pair) (r r' : MatchReport)
      → Live orders r.residual_exposure_q32 p
      → trade p r ≡ ok r'
      → All (Fits orders) r.fills
      → All (Fits orders) r'.fills
  trade-Fits p r r' l h v =
      let t = trade-Traded p r r' h in
      let b = l.buys in
      let s = l.sells in
      let bid_eq : l.bid ≡ t.bid = ok-inj (sym l.bids ∙ t.read_bid) in
      let ask_eq : l.ask ≡ t.ask = ok-inj (sym l.asks ∙ t.read_ask) in
      subst (λ fs. All (Fits orders) fs) (sym t.fills)
        (All-snoc (Fits orders) r.fills (fill_of p (min t.bid t.ask)) v (record {
          bidder = p.buyer;
          asker = p.seller;
          bought_by = l.bought_by;
          sold_by = l.sold_by;
          bids = ground arith;
          asks = ground arith;
          cross = ground arith;
          claimed = refl;
          priced = refl;
          positive = ground arith;
        }))

  -- What a matching promises of its report.
  pub record Matched (r : MatchReport) : Type 0 where
    pub accounts : Accounts orders r
    pub fit : All (Fits orders) r.fills
    pub uncrossed : Uncrossed orders r.residual_exposure_q32 orders r.residual_exposure_q32

  match_loop-Matched :
      (fuel : ℕ) (r r' : MatchReport) (m : WorkMeter)
      → Accounts orders r
      → All (Fits orders) r.fills
      → (match_loop fuel orders r m).0 ≡ ok r'
      → Matched r'
  unfolding match_loop
  match_loop-Matched zero r r' m a f h = ground arith
  match_loop-Matched (suc fuel) r r' m a f h =
      let (best, e, h2) =
        Meter.>>=-eq-ok
          (scan_buyers orders r.residual_exposure_q32 0 orders r.residual_exposure_q32 none) _ m r'
          h in
      elim (Option-cases best) [
        | inl e0 ↦
            let same : r ≡ r' = ground arith in
            subst Matched same (record {
              accounts = a;
              fit = f;
              uncrossed =
                  (scan_buyers-none orders r.residual_exposure_q32 0 orders r.residual_exposure_q32
                    none m
                    (subst
                      (λ b.
                        (scan_buyers orders r.residual_exposure_q32 0 orders r.residual_exposure_q32
                          none m).0
                        ≡ ok b)
                      e0 e)).1;
            })
        | inr (p, e0) ↦
            let live =
              scan_buyers-AllLive orders r.residual_exposure_q32 0 orders r.residual_exposure_q32
                none best m (From-all orders) (From-all r.residual_exposure_q32) tt e in
            let h3 : (Meter.◌>>=◌ (lift (trade p r)) (λ r2. match_loop fuel orders r2)
                  (scan_buyers orders r.residual_exposure_q32 0 orders r.residual_exposure_q32 none
                    m).1).0
                ≡ ok r' =
              ground arith in
            let (r2, traded, h4) = Meter.>>=-eq-ok (lift (trade p r)) _ _ r' h3 in
            match_loop-Matched fuel r2 r' _ (trade-Accounts p r r2 traded a)
              (trade-Fits p r r2 (subst (AllLive orders r.residual_exposure_q32) e0 live) traded f)
              h4
      ]

zeros : (n a : ℕ) → get_or {A = ℕ} (replicate n 0) a 0 ≡ 0
zeros zero a = refl
zeros (suc n) zero = refl
zeros (suc n) (suc a) = zeros n a

open_book_cases :
    (orders : List SettlementOptionalOrder) (slot : ℕ) (r : MatchReport)
    → open_book orders slot ≡ ok r
    → Accounts orders r × (r.fills ≡ [])
unfolding open_book
open_book_cases orders slot r h = elim (Outcome-cases (index orders 0)) [
  | inl (first, e) ↦
      let filled : r.filled_exposure_q32 ≡ replicate (length orders) 0 = ground arith in
      let left : r.residual_exposure_q32 ≡ exposures orders = ground arith in
      (λ a. ground (arith, zeros (length orders) a), ground arith)
  | inr (inl (x, e)) ↦ ground arith
  | inr (inr e) ↦ ground arith
]

-- A matching accounts for all exposure, all its fills are of crossing orders at the seller's price
-- and in a claim that the buyer accepts, and no two orders that cross are left with exposure.
pub match_continuous-Matched :
    (orders : List SettlementOptionalOrder) (slot : ℕ) (m : WorkMeter) (r : MatchReport)
    → (match_continuous orders slot m).0 ≡ ok r
    → Matched orders r
unfolding match_continuous
match_continuous-Matched orders slot m r h =
    let (r0, opened, h2) = Meter.>>=-eq-ok (lift (open_book orders slot)) _ m r h in
    let (a, e) = open_book_cases orders slot r0 opened in
    match_loop-Matched orders 17 r0 r _ a (subst (λ fs. All (Fits orders) fs) (sym e) tt) h2
