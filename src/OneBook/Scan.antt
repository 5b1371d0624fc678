-- ===== src/OneBook/Scan.antt =====
-- engine/stockmesh/onebook/mod.rs: the search for the best pair finds a pair that trades, if there
-- is one.
use xtxc.Common.{
  ℕ, zero, suc, ◌+◌, ◌≡◌, refl, sym, subst, inl, inr, arith, Bool, true, false, not, ◌&&◌, ◌||◌,
  Option, none, some, List, [], ◌∷◌, ◌==◌, if◌then◌else◌, Bool-cases,
}
use xtxc.Common.Outcome.{ok, index, ok-inj}
use xtxc.Common.Meter.{WorkMeter, charge, ◌>>=◌, >>=-eq-ok}
use xtxc.OneBook.{SettlementOptionalOrder, Pair, better, has_priority, crosses, is_sell}
use xtxc.OneBook.Matching.{scan_sellers, scan_buyers}

-- The tails of a list are at the places from `j` on.
abbrev pub From {ℓ} : {A : Type ℓ} → List A → ℕ → List A → Type ℓ
From {A = A} all j xs = (k : ℕ) (x : A) → index xs k ≡ ok x → index all (j + k) ≡ ok x

pub From-all {ℓ} : {A : Type ℓ} (all : List A) → From all 0 all
From-all all k x e = subst (λ n. index all n ≡ ok x) (omega arith) e

From-tail {ℓ} :
    {A : Type ℓ} (all : List A) (j : ℕ) (x : A) (xs : List A)
    → From all j (x ∷ xs)
    → From all (suc j) xs
From-tail all j x xs al k y e = subst (λ n. index all n ≡ ok y) (omega arith) (al (suc k) y e)

From-head {ℓ} :
    {A : Type ℓ} (all : List A) (j : ℕ) (x : A) (xs : List A)
    → From all j (x ∷ xs)
    → index all j ≡ ok x
From-head all j x xs al = subst (λ n. index all n ≡ ok x) (omega arith) (al 0 x refl)

-- A seller of the book with exposure left, that the buyer crosses.
abbrev pub sells_to : SettlementOptionalOrder → SettlementOptionalOrder → ℕ → Bool
sells_to buyer o r = is_sell o.side && not (r == 0) && crosses buyer o

module _ (orders : List SettlementOptionalOrder) (residuals : List ℕ) where
  -- A pair that trades: both are in the book with exposure left, and they cross.
  pub record Live (p : Pair) : Type 0 where
    pub bid : ℕ
    pub ask : ℕ
    pub bids : index residuals p.buyer_index ≡ ok bid
    pub asks : index residuals p.seller_index ≡ ok ask
    pub bought_by : index orders p.buyer_index ≡ ok p.buyer
    pub sold_by : index orders p.seller_index ≡ ok p.seller
    pub buys : (is_sell p.buyer.side || bid == 0) ≡ false
    pub sells : sells_to p.buyer p.seller ask ≡ true

  abbrev pub AllLive : Option Pair → Type 0
  AllLive none = Unit
  AllLive (some p) = Live p

  better-AllLive : (best : Option Pair) (p : Pair) → AllLive best → Live p → AllLive (better best p)
  unfolding better
  better-AllLive none p l v = v
  better-AllLive (some q) p l v =
      elim (has_priority p q) as (λ b. AllLive (if b then some p else some q)) [
        | true ↦ v
        | false ↦ l
      ]

  scan_sellers-AllLive :
      (i : ℕ) (buyer : SettlementOptionalOrder) (bid j : ℕ) (os : List SettlementOptionalOrder)
      (rs : List ℕ) (best best' : Option Pair) (m : WorkMeter)
      → index orders i ≡ ok buyer
      → index residuals i ≡ ok bid
      → (is_sell buyer.side || bid == 0) ≡ false
      → From orders j os
      → From residuals j rs
      → AllLive best
      → (scan_sellers i buyer j os rs best m).0 ≡ ok best'
      → AllLive best'
  unfolding scan_sellers
  scan_sellers-AllLive i buyer bid j [] rs best best' m e e2 e3 al al2 l h =
      subst AllLive (ok-inj h) l
  scan_sellers-AllLive i buyer bid j (o ∷ os) [] best best' m e e2 e3 al al2 l h = ground arith
  scan_sellers-AllLive i buyer bid j (o ∷ os) (r ∷ rs) best best' m e e2 e3 al al2 l h =
      let (_, _, h2) = >>=-eq-ok (charge 1) _ m best' h in
      let p : Pair = record { buyer_index = i; seller_index = j; buyer = buyer; seller = o } in
      let next : AllLive (if sells_to buyer o r then better best p else best) =
        elim (Bool-cases (sells_to buyer o r)) [
          | inl c ↦
              subst (λ b. AllLive (if b then better best p else best)) (sym c)
                (better-AllLive best p l (record {
                  bid = bid;
                  ask = r;
                  bids = e2;
                  asks = From-head residuals j r rs al2;
                  bought_by = e;
                  sold_by = From-head orders j o os al;
                  buys = e3;
                  sells = c;
                }))
          | inr c ↦ subst (λ b. AllLive (if b then better best p else best)) (sym c) l
        ] in
      scan_sellers-AllLive i buyer bid (suc j) os rs _ best' _ e e2 e3 (From-tail orders j o os al)
        (From-tail residuals j r rs al2) next h2

  pub scan_buyers-AllLive :
      (i : ℕ) (os : List SettlementOptionalOrder) (rs : List ℕ) (best best' : Option Pair)
      (m : WorkMeter)
      → From orders i os
      → From residuals i rs
      → AllLive best
      → (scan_buyers orders residuals i os rs best m).0 ≡ ok best'
      → AllLive best'
  unfolding scan_buyers
  scan_buyers-AllLive i [] rs best best' m al al2 l h = subst AllLive (ok-inj h) l
  scan_buyers-AllLive i (o ∷ os) [] best best' m al al2 l h = ground arith
  scan_buyers-AllLive i (o ∷ os) (r ∷ rs) best best' m al al2 l h =
      elim (Bool-cases (is_sell o.side || r == 0)) [
        | inl c ↦
            scan_buyers-AllLive (suc i) os rs best best' m (From-tail orders i o os al)
              (From-tail residuals i r rs al2) l (ground arith)
        | inr c ↦
            let h2 : ((scan_sellers i o 0 orders residuals best >>= λ found.
            scan_buyers orders residuals (suc i) os rs found)
                  m).0
                ≡ ok best' =
              ground arith in
            let (found, e, h3) =
              >>=-eq-ok (scan_sellers i o 0 orders residuals best) _ m best' h2 in
            let next =
              scan_sellers-AllLive i o r 0 orders residuals best found m
                (From-head orders i o os al) (From-head residuals i r rs al2) c (From-all orders)
                (From-all residuals) l e in
            scan_buyers-AllLive (suc i) os rs found best' _ (From-tail orders i o os al)
              (From-tail residuals i r rs al2) next h3
      ]

-- What holds of every order with its residual exposure.
abbrev pub Each :
    (SettlementOptionalOrder → ℕ → Type 0) → List SettlementOptionalOrder → List ℕ → Type 0
Each P os rs =
    (k : ℕ) (o : SettlementOptionalOrder) (r : ℕ) → index os k ≡ ok o → index rs k ≡ ok r → P o r

Each-cons :
    (P : SettlementOptionalOrder → ℕ → Type 0) (o : SettlementOptionalOrder) (r : ℕ)
    (os : List SettlementOptionalOrder) (rs : List ℕ)
    → P o r
    → Each P os rs
    → Each P (o ∷ os) (r ∷ rs)
Each-cons P o r os rs p ps zero o' r' e f =
    subst (λ x. P x r') (ok-inj e) (subst (λ x. P o x) (ok-inj f) p)
Each-cons P o r os rs p ps (suc k) o' r' e f = ps k o' r' e f

-- No seller of the book trades with the buyer.
abbrev pub Refused : List SettlementOptionalOrder → List ℕ → SettlementOptionalOrder → Type 0
Refused os rs buyer = Each (λ o r. sells_to buyer o r ≡ false) os rs

-- No two orders of the book trade.
abbrev pub Uncrossed :
    List SettlementOptionalOrder → List ℕ → List SettlementOptionalOrder → List ℕ → Type 0
Uncrossed all residuals os rs =
    Each (λ o r. (is_sell o.side || r == 0) ≡ false → Refused all residuals o) os rs

kept_none :
    (c : Bool) (best : Option Pair) (p : Pair)
    → (if c then better best p else best) ≡ none
    → (c ≡ false) × (best ≡ none)
unfolding better
kept_none c best p h = ground arith

scan_sellers-none :
    (i : ℕ) (buyer : SettlementOptionalOrder) (j : ℕ) (os : List SettlementOptionalOrder)
    (rs : List ℕ) (best : Option Pair) (m : WorkMeter)
    → (scan_sellers i buyer j os rs best m).0 ≡ ok none
    → (best ≡ none) × Refused os rs buyer
unfolding scan_sellers
scan_sellers-none i buyer j [] rs best m h = (ok-inj h, λ k o r e f. ground arith)
scan_sellers-none i buyer j (o ∷ os) [] best m h = ground arith
scan_sellers-none i buyer j (o ∷ os) (r ∷ rs) best m h =
    let (_, _, h2) = >>=-eq-ok (charge 1) _ m none h in
    let (start, rest) = scan_sellers-none i buyer (suc j) os rs _ _ h2 in
    let (never, first) = kept_none (sells_to buyer o r) best _ start in
    (first, Each-cons (λ o r. sells_to buyer o r ≡ false) o r os rs never rest)

pub scan_buyers-none :
    (all : List SettlementOptionalOrder) (residuals : List ℕ) (i : ℕ)
    (os : List SettlementOptionalOrder) (rs : List ℕ) (best : Option Pair) (m : WorkMeter)
    → (scan_buyers all residuals i os rs best m).0 ≡ ok none
    → (best ≡ none) × Uncrossed all residuals os rs
unfolding scan_buyers
scan_buyers-none all residuals i [] rs best m h = (ok-inj h, λ k o r e f. ground arith)
scan_buyers-none all residuals i (o ∷ os) [] best m h = ground arith
scan_buyers-none all residuals i (o ∷ os) (r ∷ rs) best m h =
    elim (Bool-cases (is_sell o.side || r == 0)) [
      | inl c ↦
          let (first, rest) = scan_buyers-none all residuals (suc i) os rs best m (ground arith) in
          (first, Each-cons _ o r os rs (λ d. ground arith) rest)
      | inr c ↦
          let h2 : ((scan_sellers i o 0 all residuals best >>= λ found.
          scan_buyers all residuals (suc i) os rs found)
                m).0
              ≡ ok none =
            ground arith in
          let (found, e, h3) = >>=-eq-ok (scan_sellers i o 0 all residuals best) _ m none h2 in
          let (nothing, rest) = scan_buyers-none all residuals (suc i) os rs found _ h3 in
          let (first, refused) =
            scan_sellers-none i o 0 all residuals best m
              (subst (λ x. (scan_sellers i o 0 all residuals best m).0 ≡ ok x) nothing e) in
          (first, Each-cons _ o r os rs (λ d. refused) rest)
    ]
