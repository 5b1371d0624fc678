-- ===== src/OneBook/Total.antt =====
-- engine/stockmesh/onebook/mod.rs: the matching ends. Every trade closes an order, so that the rounds
-- are no more than the orders, and neither the fuel nor the table of fills runs out.
use xtxc.Common.{
  ℕ, zero, suc, ◌+◌, ◌-◌, min, ◌≡◌, refl, sym, ap, ◌∙◌, ◌≤◌, ◌<◌, inl, inr, arith, Bool, false,
  none, some, Option, List, [], ◌∷◌, ◌++◌, leb, ltb, ◌==◌, ◌||◌, not, ◌&&◌, get_or, set, take, ◌!=◌,
  length, replicate, Bool-cases, ==_iff,
}
use xtxc.Common.Outcome.{
  Outcome, ok, err, index, work_limit, u32_mod, reject, bounds, ok-inj, Error, duplicate, identity,
  invalid_amount, checked_add, arithmetic, u64_mod,
}
use xtxc.Common.Meter.{WorkMeter, Metered, lift, charge, pure, ◌>>=◌}
use xtxc.Common.Ends.{
  Ending, >>=-Ending, >>=-Ending_metered, ends_in, Ending-map, either_way, either_branch,
  either_option, reject-Ending, kept_by_reject, IfSome,
}
use xtxc.OneBook.{
  SettlementOptionalOrder, Pair, MatchReport, Side, buy, sell, check_claims, check_delivery,
  check_orders, validate_order, contains, repeats, is_sell, trade, take_from, give_to, exposures,
  fill_of, open_book, max_matches, max_book_orders,
}
use xtxc.OneBook.Matching.{match_loop, match_continuous, scan_buyers, scan_sellers}
use xtxc.OneBook.Scan.{Live, AllLive, scan_buyers-AllLive, From-all}
use xtxc.Optimizer.Oracle.Refine.{funded}
use xtxc.Optimizer.Oracle.Arrays.{length-set, funded-exchange, length-exchange, get_or-set}

charge_ends : (n : ℕ) (m : WorkMeter) → Ending ⊥ (λ (u : Unit {0}). Unit {0}) (charge n m).0
unfolding charge
charge_ends n m =
    either_branch (λ (r : Outcome (Unit {0}) × WorkMeter). Ending ⊥ (λ u. Unit {0}) r.0)
      (ltb (m.used + n) u32_mod && not (ltb m.limit (m.used + n)))
      (ok tt, record m { used = m.used + n }) (err work_limit, m) (λ e. tt) (λ e. tt)

scan_sellers_ends :
    (i : ℕ) (buyer : SettlementOptionalOrder) (j : ℕ) (os : List SettlementOptionalOrder)
    (rs : List ℕ) (best : Option Pair) (m : WorkMeter)
    → length os ≡ length rs
    → Ending ⊥ (λ b. Unit) (scan_sellers i buyer j os rs best m).0
unfolding scan_sellers
scan_sellers_ends i buyer j [] rs best m e = tt
scan_sellers_ends i buyer j (o ∷ os) [] best m e = absurd (omega arith)
scan_sellers_ends i buyer j (o ∷ os) (r ∷ rs) best m e =
    >>=-Ending_metered ⊥ (λ u. Unit) (λ b. Unit) _
      (λ u m2 t. scan_sellers_ends i buyer (suc j) os rs _ m2 (omega arith)) (charge 1) m
      (charge_ends 1 m)

scan_buyers_ends :
    (all : List SettlementOptionalOrder) (residuals : List ℕ) (i : ℕ)
    (os : List SettlementOptionalOrder) (rs : List ℕ) (best : Option Pair) (m : WorkMeter)
    → length all ≡ length residuals
    → length os ≡ length rs
    → Ending ⊥ (λ b. Unit) (scan_buyers all residuals i os rs best m).0
unfolding scan_buyers
scan_buyers_ends all residuals i [] rs best m e e2 = tt
scan_buyers_ends all residuals i (o ∷ os) [] best m e e2 = absurd (omega arith)
scan_buyers_ends all residuals i (o ∷ os) (r ∷ rs) best m e e2 =
    let Q : Option Pair → Type 0 = λ b. Unit in
    let more : Option Pair → Metered (Option Pair) = scan_buyers all residuals (suc i) os rs in
    either_way (λ (c : Metered (Option Pair)). Ending ⊥ Q (c m).0) (is_sell o.side || r == 0)
      (more best) (scan_sellers i o 0 all residuals best >>= more)
      (λ c. scan_buyers_ends all residuals (suc i) os rs best m e (omega arith))
      λ c.
        >>=-Ending_metered ⊥ Q Q more
          (λ found m2 t. scan_buyers_ends all residuals (suc i) os rs found m2 e (omega arith))
          (scan_sellers i o 0 all residuals best) m (scan_sellers_ends i o 0 all residuals best m e)

index_get_or : (xs : List ℕ) (i x : ℕ) → index xs i ≡ ok x → (i < length xs) × (get_or xs i 0 ≡ x)
index_get_or [] i x h = ground arith
index_get_or (y ∷ xs) zero x h = (omega arith, ok-inj h)
index_get_or (y ∷ xs) (suc i) x h = let k = index_get_or xs i x h in (omega arith, k.1)

get_or_index : (xs : List ℕ) (i : ℕ) → i < length xs → index xs i ≡ ok (get_or xs i 0)
get_or_index [] i h = absurd (omega arith)
get_or_index (y ∷ xs) zero h = refl
get_or_index (y ∷ xs) (suc i) h = get_or_index xs i (omega arith)

take_runs :
    (xs : List ℕ) (i v : ℕ)
    → i < length xs
    → v ≤ get_or xs i 0
    → take_from xs i v ≡ ok (set xs i (get_or xs i 0 - v))
unfolding take_from
take_runs xs i v h l = rw (get_or_index xs i h) (ground arith)

give_ends :
    (xs : List ℕ) (i v : ℕ)
    → i < length xs
    → Ending ⊥ (λ ys. length ys ≡ length xs) (give_to xs i v)
unfolding give_to
give_ends xs i v h = rw (get_or_index xs i h) (
    >>=-Ending ⊥ (λ y. Unit) (λ ys. length ys ≡ length xs)
      (checked_add u64_mod (get_or xs i 0) v arithmetic) _ (ground arith) λ y t. length-set xs i y)

-- A book in the middle of a matching: the fills and the orders with exposure left are together no more
-- than the orders.
record Open (orders : List SettlementOptionalOrder) (r : MatchReport) : Type 0 where
  residuals : length r.residual_exposure_q32 ≡ length orders
  filled : length r.filled_exposure_q32 ≡ length orders
  room : length r.fills + funded r.residual_exposure_q32 ≤ length orders
  few : length orders ≤ max_book_orders

-- One order less with exposure left.
record Closer (orders : List SettlementOptionalOrder) (r r' : MatchReport) : Type 0 where
  stays : Open orders r'
  fewer : funded r'.residual_exposure_q32 < funded r.residual_exposure_q32

length-snoc {ℓ} : {A : Type ℓ} (xs : List A) (x : A) → length (xs ++ (x ∷ [])) ≡ suc (length xs)
length-snoc [] x = refl
length-snoc (y ∷ xs) x = ap suc (length-snoc xs x)

Live-apart :
    (orders : List SettlementOptionalOrder) (rs : List ℕ) (p : Pair)
    → Live orders rs p
    → (p.buyer_index == p.seller_index) ≡ false
Live-apart orders rs p l = elim (Bool-cases (p.buyer_index == p.seller_index)) [
  | inl e ↦
      let at : p.buyer_index ≡ p.seller_index = (==_iff _ _).0 e in
      let same : p.buyer ≡ p.seller = ok-inj (sym l.bought_by ∙ ap (index orders) at ∙ l.sold_by) in
      let side : is_sell p.buyer.side ≡ is_sell p.seller.side =
        ap (λ (o : SettlementOptionalOrder). is_sell o.side) same in
      let b = l.buys in let s = l.sells in absurd (ground arith)
  | inr e ↦ e
]

trade-Closer :
    (orders : List SettlementOptionalOrder) (p : Pair) (r : MatchReport)
    → Open orders r
    → Live orders r.residual_exposure_q32 p
    → Ending ⊥ (Closer orders r) (trade p r)
unfolding trade
trade-Closer orders p r v l =
    let rs = r.residual_exposure_q32 in
    let (bid_fits, bid_eq) = index_get_or rs p.buyer_index l.bid l.bids in
    let (ask_fits, ask_eq) = index_get_or rs p.seller_index l.ask l.asks in
    let apart = Live-apart orders rs p l in
    let k = v.residuals in
    let k2 = v.filled in
    let k3 = v.room in
    let k4 = v.few in
    let buys = l.buys in
    let sells = l.sells in
    let moved : ℕ = min l.bid l.ask in
    let less : List ℕ = set rs p.buyer_index (l.bid - moved) in
    let residual : List ℕ = set less p.seller_index (l.ask - moved) in
    let len = length-set rs p.buyer_index (l.bid - moved) in
    let kept = get_or-set rs p.buyer_index (l.bid - moved) p.seller_index bid_fits in
    let ask_eq2 : get_or less p.seller_index 0 ≡ l.ask = ground arith in
    let took : take_from rs p.buyer_index moved ≡ ok less =
      take_runs rs p.buyer_index moved bid_fits (omega arith)
      ∙ ap (λ x. ok (set rs p.buyer_index (x - moved))) bid_eq in
    let took2 : take_from less p.seller_index moved ≡ ok residual =
      take_runs less p.seller_index moved (omega arith) (omega arith)
      ∙ ap (λ x. ok (set less p.seller_index (x - moved))) ask_eq2 in
    let fewer =
      funded-exchange rs p.buyer_index p.seller_index (l.bid - moved) (l.ask - moved) apart bid_fits
        ask_fits in
    let len2 = length-exchange rs p.buyer_index p.seller_index (l.bid - moved) (l.ask - moved) in
    let drop : funded residual < funded rs = ground arith in
    rw l.bids (
      rw l.asks (
        >>=-Ending ⊥ (λ u. leb max_matches (length r.fills) ≡ false) (Closer orders r)
          (reject (leb max_matches (length r.fills)) bounds) _ (reject-Ending ⊥ _ bounds)
          λ u e. rw took (
            rw took2 (
              >>=-Ending ⊥ (λ ys. length ys ≡ length r.filled_exposure_q32) (Closer orders r)
                (give_to r.filled_exposure_q32 p.buyer_index moved) _
                (give_ends _ _ _ (omega arith))
                λ more len3.
                  >>=-Ending ⊥ (λ ys. length ys ≡ length more) (Closer orders r)
                    (give_to more p.seller_index moved) _ (give_ends _ _ _ (omega arith))
                    λ filled len4. record {
                      stays = record {
                        residuals = omega arith;
                        filled = omega arith;
                        room = omega (arith, length-snoc r.fills (fill_of p moved));
                        few = k4;
                      };
                      fewer = drop;
                    }))))

AllLive-Live :
    (orders : List SettlementOptionalOrder) (rs : List ℕ) (best : Option Pair)
    → AllLive orders rs best
    → IfSome (Live orders rs) best
AllLive-Live orders rs none l = tt
AllLive-Live orders rs (some p) l = l

match_loop-Open :
    (orders : List SettlementOptionalOrder) (fuel : ℕ) (r : MatchReport) (m : WorkMeter)
    → Open orders r
    → funded r.residual_exposure_q32 < fuel
    → Ending ⊥ (Open orders) (match_loop fuel orders r m).0
unfolding match_loop
match_loop-Open orders zero r m v h = absurd (omega arith)
match_loop-Open orders (suc fuel) r m v h =
    let rs = r.residual_exposure_q32 in
    let next : Option Pair → Metered MatchReport = λ best. elim best [
      | none ↦ pure r
      | some p ↦ lift (trade p r) >>= λ r'. match_loop fuel orders r'
    ] in
    >>=-Ending_metered ⊥ (AllLive orders rs) (Open orders) next
      (λ best m2 live.
        either_option (Live orders rs)
          (λ (c : Metered MatchReport). Ending ⊥ (Open orders) (c m2).0) best (pure r)
          (λ p. lift (trade p r) >>= λ r'. match_loop fuel orders r')
          (AllLive-Live orders rs best live) v
          λ p l.
            >>=-Ending_metered ⊥ (Closer orders r) (Open orders) (match_loop fuel orders)
              (λ r2 m3 c.
                let f = c.fewer in match_loop-Open orders fuel r2 m3 c.stays (omega arith))
              (lift (trade p r)) m2 (trade-Closer orders p r v l))
      (scan_buyers orders rs 0 orders rs none) m
      (Ending-map ⊥ _ _ _
        (ends_in ⊥ (scan_buyers orders rs 0 orders rs none m).0 (
          scan_buyers_ends orders rs 0 orders rs none m (let k = v.residuals in omega arith)
            (let k = v.residuals in omega arith)))
        λ best e.
          scan_buyers-AllLive orders rs 0 orders rs none best m (From-all orders) (From-all rs) tt
            e)

length-exposures : (os : List SettlementOptionalOrder) → length (exposures os) ≡ length os
unfolding exposures
length-exposures [] = refl
length-exposures (o ∷ os) = ap suc (length-exposures os)

length-replicate : (n x : ℕ) → length (replicate n x) ≡ n
length-replicate zero x = refl
length-replicate (suc n) x = ap suc (length-replicate n x)

funded-le : (xs : List ℕ) → funded xs ≤ length xs
unfolding funded
funded-le [] = omega arith
funded-le (x ∷ xs) = grind (arith, funded-le xs)

-- A check that aborts never.
abbrev Quiet : Outcome (Unit {0}) → Type 0
Quiet r = Ending ⊥ (λ u. Unit) r

reject-Quiet : (b : Bool) (e : Error) → Quiet (reject b e)
reject-Quiet b e = kept_by_reject ⊥ Unit b e tt

check_claims-Quiet : (earlier cs : List ℕ) → Quiet (check_claims earlier cs)
unfolding check_claims
check_claims-Quiet earlier [] = tt
check_claims-Quiet earlier (c ∷ cs) =
    >>=-Ending ⊥ (λ u. Unit) (λ u. Unit) (reject (c == 0 || contains earlier c) duplicate) _
      (reject-Quiet _ duplicate) λ u t. check_claims-Quiet (c ∷ earlier) cs

check_delivery-Quiet : (side : Side) (o : SettlementOptionalOrder) → Quiet (check_delivery side o)
unfolding check_delivery
check_delivery-Quiet buy o = reject-Quiet _ identity
check_delivery-Quiet sell o = reject-Quiet _ identity

check_orders-Quiet :
    (slot instrument : ℕ) (earlier os : List SettlementOptionalOrder)
    → Quiet (check_orders slot instrument earlier os)
unfolding check_orders validate_order
check_orders-Quiet slot instrument earlier [] = tt
check_orders-Quiet slot instrument earlier (o ∷ os) =
    >>=-Ending ⊥ (λ u. Unit) (λ u. Unit) (validate_order o slot) _
      (>>=-Ending ⊥ (λ u. Unit) (λ u. Unit) (reject _ invalid_amount) _
        (reject-Quiet _ invalid_amount)
        λ u t.
          >>=-Ending ⊥ (λ u. Unit) (λ u. Unit)
            (check_claims [] (take o.claim_count o.acceptable_claims)) _ (check_claims-Quiet _ _)
            λ u t. check_delivery-Quiet o.side o)
      λ u t.
        >>=-Ending ⊥ (λ u. Unit) (λ u. Unit) (reject (repeats o earlier) duplicate) _
          (reject-Quiet _ duplicate)
          λ u t.
            >>=-Ending ⊥ (λ u. Unit) (λ u. Unit) (reject (instrument != o.instrument) identity) _
              (reject-Quiet _ identity) λ u t. check_orders-Quiet slot instrument (o ∷ earlier) os

first_index :
    (os : List SettlementOptionalOrder)
    → (ltb (length os) 2 || ltb max_book_orders (length os)) ≡ false
    → Ending ⊥ (λ o. Unit) (index os 0)
first_index [] h = ground arith
first_index (o ∷ os) h = tt

open_book-Open :
    (orders : List SettlementOptionalOrder) (slot : ℕ)
    → Ending ⊥ (Open orders) (open_book orders slot)
unfolding open_book
open_book-Open orders slot =
    let wrong : Bool = ltb (length orders) 2 || ltb max_book_orders (length orders) in
    >>=-Ending ⊥ (λ u. wrong ≡ false) (Open orders) (reject wrong bounds) _
      (reject-Ending ⊥ wrong bounds)
      λ u e.
        >>=-Ending ⊥ (λ o. Unit) (Open orders) (index orders 0) _ (first_index orders e)
          λ first t.
            >>=-Ending ⊥ (λ u. Unit) (Open orders) (check_orders slot first.instrument [] orders) _
              (check_orders-Quiet slot first.instrument [] orders)
              λ u t. record {
                residuals = length-exposures orders;
                filled = length-replicate (length orders) 0;
                room = omega (arith, funded-le (exposures orders), length-exposures orders);
                few = ground arith;
              }

-- Whatever the orders, the slot and the budget, `match_continuous` ends without an abort: in an error,
-- or in a report with no more fills than orders. Its loop needs no more rounds than there are orders,
-- and one to see that nothing is left to trade.
pub match_continuous_total :
    (orders : List SettlementOptionalOrder) (slot : ℕ) (m : WorkMeter)
    → Ending ⊥
        (λ (r : MatchReport). length r.fills ≤ length orders)
        (match_continuous orders slot m).0
unfolding match_continuous
match_continuous_total orders slot m =
    >>=-Ending_metered ⊥ (Open orders) (λ (r : MatchReport). length r.fills ≤ length orders)
      (match_loop 17 orders)
      (λ r m2 v.
        Ending-map ⊥ (Open orders) _ (match_loop 17 orders r m2).0
          (match_loop-Open orders 17 r m2 v (let k = v.room in let k2 = v.few in omega arith))
          λ r2 v2. let k = v2.room in omega arith)
      (lift (open_book orders slot)) m (open_book-Open orders slot)
