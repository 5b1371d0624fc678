-- ===== src/Clearing/Settlement.antt =====
-- engine/stockmesh/clearing/mod.rs: the check of a settlement, `verify_settlement`.
use xtxc.Common.{
  ℕ, zero, suc, ◌+◌, ◌≡◌, refl, subst, ◌≤◌, ◌<◌, arith, Bool, true, false, not, ◌&&◌, ◌||◌, List,
  [], ◌∷◌, ltb, leb, ◌==◌, ◌!=◌, if◌then◌else◌, length, set, get_or, get_or-set_at, ==_iff, ap, inl,
  inr, ◌⊎◌, Bool-cases,
}
use xtxc.Common.Outcome.{
  Outcome, ok, panic, reject, index, bounds, balance_invariant, min_out, arithmetic, ◌>>=◌, ◌>>◌,
  >>=-eq-ok, reject-eq-ok, ok-inj,
}
use xtxc.Common.Int.{ℤ, pos, pos_part, neg_part, ◌+ℤ◌, ◌-ℤ◌, fit_i128, is_zero, +ℤ_parts, -ℤ_parts}
use xtxc.Clearing.{FlowIntent, max_intents, max_assets}

-- `net[asset] = net[asset].checked_add(amount)?` and `checked_sub`
unfoldable pub gain : List ℤ → ℕ → ℕ → Outcome (List ℤ)
gain net asset amount = do
  x ← index net asset
  y ← fit_i128 (x +ℤ pos amount) arithmetic
  ok (set net asset y)

unfoldable pub lose : List ℤ → ℕ → ℕ → Outcome (List ℤ)
lose net asset amount = do
  x ← index net asset
  y ← fit_i128 (x -ℤ pos amount) arithmetic
  ok (set net asset y)

-- The loop over the orders, with their debits and credits.
unfoldable pub settle_net : List FlowIntent → List ℕ → List ℕ → List ℤ → Outcome (List ℤ)
settle_net [] debits credits net = ok net
settle_net (o ∷ os) [] credits net = panic
settle_net (o ∷ os) (d ∷ ds) [] net = panic
settle_net (o ∷ os) (d ∷ ds) (c ∷ cs) net = do
  reject (leb max_assets o.sell || leb max_assets o.buy || o.sell == o.buy || d != o.amount)
      balance_invariant
  reject (ltb c o.min_out) min_out
  net' ← gain net o.sell d
  net'' ← lose net' o.buy c
  settle_net os ds cs net''

unfoldable pub all_zero : List ℤ → Bool
all_zero [] = true
all_zero (z ∷ zs) = is_zero z && all_zero zs

unfoldable pub verify_settlement : List FlowIntent → List ℕ → List ℕ → List ℤ → Outcome (Unit {0})
verify_settlement orders debits credits external_delta = do
  reject
      (ltb max_intents (length orders)
        || not (length orders == length debits)
        || not (length orders == length credits))
      bounds
  net ← settle_net orders debits credits external_delta
  reject (not (all_zero net)) balance_invariant

-- What the orders pay of an asset, and what they get.
unfoldable pub paid : ℕ → List FlowIntent → List ℕ → ℕ
paid a [] ds = 0
paid a (o ∷ os) [] = 0
paid a (o ∷ os) (d ∷ ds) = (if o.sell == a then d else 0) + paid a os ds

unfoldable pub got : ℕ → List FlowIntent → List ℕ → ℕ
got a [] cs = 0
got a (o ∷ os) [] = 0
got a (o ∷ os) (c ∷ cs) = (if o.buy == a then c else 0) + got a os cs

-- Every order pays its amount and gets its minimum.
abbrev pub Honoured : List FlowIntent → List ℕ → List ℕ → Type 0
Honoured [] ds cs = Unit
Honoured (o ∷ os) [] cs = ⊥
Honoured (o ∷ os) (d ∷ ds) [] = ⊥
Honoured (o ∷ os) (d ∷ ds) (c ∷ cs) = (d ≡ o.amount) × (o.min_out ≤ c) × Honoured os ds cs

abbrev pub at : List ℤ → ℕ → ℤ
at net a = get_or net a (pos 0)

index_at : (net : List ℤ) (i : ℕ) (x : ℤ) → index net i ≡ ok x → (i < length net) × (at net i ≡ x)
index_at [] i x h = ground arith
index_at (y ∷ net) zero x h = (omega arith, ground arith)
index_at (y ∷ net) (suc i) x h = let k = index_at net i x h in (omega arith, k.1)

fit_i128_eq : (z y : ℤ) → fit_i128 z arithmetic ≡ ok y → z ≡ y
fit_i128_eq z y h = ground arith

-- A write of one entry, at each place.
module _ (net : List ℤ) (i : ℕ) (x y : ℤ) (fits : i < length net) (old : at net i ≡ x) (a : ℕ) where
  written :
      ((i == a) ≡ true) × (at (set net i y) a ≡ y) × (at net a ≡ x)
      ⊎ ((i == a) ≡ false) × (at (set net i y) a ≡ at net a)
  written =
      let g = get_or-set_at net i y a (pos 0) fits in
      elim (Bool-cases (i == a)) [
        | inl e ↦ inl (e, ground arith, subst (λ k. at net k ≡ x) ((==_iff i a).0 e) old)
        | inr e ↦ inr (e, ground arith)
      ]

gain_at :
    (net net' : List ℤ) (i v a : ℕ)
    → gain net i v ≡ ok net'
    → pos_part (at net' a) + neg_part (at net a)
      ≡ neg_part (at net' a) + pos_part (at net a) + (if i == a then v else 0)
unfolding gain
gain_at net net' i v a h =
    let (x, e, h2) = >>=-eq-ok (index net i) _ h in
    let (y, f, h3) = >>=-eq-ok (fit_i128 (x +ℤ pos v) arithmetic) _ h2 in
    let (fits, old) = index_at net i x e in
    let sum = fit_i128_eq (x +ℤ pos v) y f in
    let pos_eq = ap pos_part sum in
    let neg_eq = ap neg_part sum in
    let parts = +ℤ_parts x (pos v) in
    subst
      (λ n.
        pos_part (at n a) + neg_part (at net a)
        ≡ neg_part (at n a) + pos_part (at net a) + (if i == a then v else 0))
      (ok-inj h3)
      (elim (written net i x y fits old a) [
        | inl (same, new, was) ↦ rw same (rw new (rw was (omega arith)))
        | inr (apart, kept) ↦ rw apart (rw kept (omega arith))
      ])

lose_at :
    (net net' : List ℤ) (i v a : ℕ)
    → lose net i v ≡ ok net'
    → pos_part (at net' a) + neg_part (at net a) + (if i == a then v else 0)
      ≡ neg_part (at net' a) + pos_part (at net a)
unfolding lose
lose_at net net' i v a h =
    let (x, e, h2) = >>=-eq-ok (index net i) _ h in
    let (y, f, h3) = >>=-eq-ok (fit_i128 (x -ℤ pos v) arithmetic) _ h2 in
    let (fits, old) = index_at net i x e in
    let difference = fit_i128_eq (x -ℤ pos v) y f in
    let pos_eq = ap pos_part difference in
    let neg_eq = ap neg_part difference in
    let parts = -ℤ_parts x (pos v) in
    subst
      (λ n.
        pos_part (at n a) + neg_part (at net a) + (if i == a then v else 0)
        ≡ neg_part (at n a) + pos_part (at net a))
      (ok-inj h3)
      (elim (written net i x y fits old a) [
        | inl (same, new, was) ↦ rw same (rw new (rw was (omega arith)))
        | inr (apart, kept) ↦ rw apart (rw kept (omega arith))
      ])

settle_net_at :
    (os : List FlowIntent) (ds cs : List ℕ) (net net' : List ℤ) (a : ℕ)
    → settle_net os ds cs net ≡ ok net'
    → pos_part (at net' a) + neg_part (at net a) + got a os cs
      ≡ neg_part (at net' a) + pos_part (at net a) + paid a os ds
unfolding settle_net got paid
settle_net_at [] ds cs net net' a h =
    let same = ap (λ n. pos_part (at n a)) (ok-inj h) in
    let same2 = ap (λ n. neg_part (at n a)) (ok-inj h) in omega arith
settle_net_at (o ∷ os) [] cs net net' a h = ground arith
settle_net_at (o ∷ os) (d ∷ ds) [] net net' a h = ground arith
settle_net_at (o ∷ os) (d ∷ ds) (c ∷ cs) net net' a h =
    let bad : Bool =
      leb max_assets o.sell || leb max_assets o.buy || o.sell == o.buy || d != o.amount in
    let (_, _, h2) = >>=-eq-ok (reject bad balance_invariant) _ h in
    let (_, _, h3) = >>=-eq-ok (reject (ltb c o.min_out) min_out) _ h2 in
    let (n1, e1, h4) = >>=-eq-ok (gain net o.sell d) _ h3 in
    let (n2, e2, h5) = >>=-eq-ok (lose n1 o.buy c) _ h4 in
    let k1 = gain_at net n1 o.sell d a e1 in
    let k2 = lose_at n1 n2 o.buy c a e2 in
    let rest = settle_net_at os ds cs n2 net' a h5 in omega arith

settle_net-Honoured :
    (os : List FlowIntent) (ds cs : List ℕ) (net net' : List ℤ)
    → settle_net os ds cs net ≡ ok net'
    → Honoured os ds cs
unfolding settle_net
settle_net-Honoured [] ds cs net net' h = tt
settle_net-Honoured (o ∷ os) [] cs net net' h = ground arith
settle_net-Honoured (o ∷ os) (d ∷ ds) [] net net' h = ground arith
settle_net-Honoured (o ∷ os) (d ∷ ds) (c ∷ cs) net net' h =
    let bad : Bool =
      leb max_assets o.sell || leb max_assets o.buy || o.sell == o.buy || d != o.amount in
    let (_, r, h2) = >>=-eq-ok (reject bad balance_invariant) _ h in
    let (_, r2, h3) = >>=-eq-ok (reject (ltb c o.min_out) min_out) _ h2 in
    let (n1, e1, h4) = >>=-eq-ok (gain net o.sell d) _ h3 in
    let (n2, e2, h5) = >>=-eq-ok (lose n1 o.buy c) _ h4 in
    let t = reject-eq-ok bad balance_invariant r in
    let t2 = reject-eq-ok (ltb c o.min_out) min_out r2 in
    (ground arith, ground arith, settle_net-Honoured os ds cs n2 net' h5)

all_zero_at :
    (net : List ℤ) (a : ℕ) → all_zero net ≡ true → pos_part (at net a) ≡ neg_part (at net a)
unfolding all_zero
all_zero_at [] a h = refl
all_zero_at (z ∷ net) zero h = ground arith
all_zero_at (z ∷ net) (suc a) h = all_zero_at net a (ground arith)

-- A settlement that `verify_settlement` accepts lets every order pay exactly its amount and get at
-- least its minimum, and it conserves every asset: what the orders pay of it and what the venues send
-- are together what the orders get and what the venues take.
pub verify_settlement-conserves :
    (orders : List FlowIntent) (debits credits : List ℕ) (external_delta : List ℤ)
    → verify_settlement orders debits credits external_delta ≡ ok tt
    → Honoured orders debits credits
      × ((a : ℕ)
          → paid a orders debits + pos_part (at external_delta a)
            ≡ got a orders credits + neg_part (at external_delta a))
unfolding verify_settlement
verify_settlement-conserves orders debits credits external_delta h =
    let wrong : Bool =
      ltb max_intents (length orders)
      || not (length orders == length debits)
      || not (length orders == length credits) in
    let (_, _, h2) = >>=-eq-ok (reject wrong bounds) _ h in
    let (net, e, h3) = >>=-eq-ok (settle_net orders debits credits external_delta) _ h2 in
    let zero_net = reject-eq-ok (not (all_zero net)) balance_invariant h3 in
    (
      settle_net-Honoured orders debits credits external_delta net e,
      λ a.
          let k = settle_net_at orders debits credits external_delta net a e in
          let z = all_zero_at net a (ground arith) in omega arith,
    )
