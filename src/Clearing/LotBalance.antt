-- ===== src/Clearing/LotBalance.antt =====
-- engine/stockmesh/clearing/mod.rs: what the fills of a lot fold promise.
use xtxc.Common.{
  ℕ, zero, suc, ◌+◌, ◌*◌, ◌≡◌, refl, subst, ◌≤◌, ◌<◌, inl, inr, arith, true, false, List, [], ◌∷◌,
  get_or, length,
}
use xtxc.Common.Outcome.{
  ok, index, arithmetic, as_u64, checked_add, u128_mod, >>=-eq-ok, Outcome-cases, ok-inj,
}
use xtxc.Common.Meter.{WorkMeter, lift}
use xtxc.Common.Meter
use xtxc.Clearing.{FlowIntent, FoldFill, Folding, Ledger, post, new_ledger, balanced}
use xtxc.Clearing.Cycle.{pivot_all, certify}
use xtxc.Clearing.Fold.{Intake, Settled, idle}
use xtxc.Clearing.Lots.{
  LotFoldReport, bad_lot, lot_fill, settle_lots, prepare_lots, conclude_lots, fold_lots,
}
use xtxc.Clearing.Quantum.{product_pos}
use xtxc.Clearing.Balance.{sold, bought, Fair, post_get, same_get, zeros}

good_lots : (lots : List ℕ) → bad_lot lots ≡ false → (i x : ℕ) → index lots i ≡ ok x → 0 < x
unfolding bad_lot
good_lots [] h i x e = ground arith
good_lots (lot ∷ lots) h zero x e = ground (arith, ok-inj e)
good_lots (lot ∷ lots) h (suc i) x e = good_lots lots (ground arith) i x e

zero_flow : (flow lot : ℕ) → 0 < lot → flow * lot ≡ 0 → flow ≡ 0
zero_flow zero lot h e = refl
zero_flow (suc flow) lot h e = ground (arith, product_pos (suc flow) lot)

-- A fill of a flow is that many lots of both assets.
lot_fill-Fair :
    (lots : List ℕ) (o : FlowIntent) (flow : ℕ) (f : FoldFill)
    → bad_lot lots ≡ false
    → lot_fill lots o flow ≡ ok f
    → (f.input ≤ o.amount)
      × (f.input * o.min_out ≤ f.output * o.amount)
      × (f.input ≡ 0 → f.output ≡ 0)
unfolding lot_fill as_u64
lot_fill-Fair lots o flow f g h = elim (Outcome-cases (index lots o.sell)) [
  | inl (sell_lot, e) ↦ elim (Outcome-cases (index lots o.buy)) [
    | inl (buy_lot, e2) ↦
        let some_lot = good_lots lots g o.sell sell_lot e in
        (
          ground arith,
          ground arith,
          λ z.
              let idle_flow = zero_flow flow sell_lot some_lot (ground arith) in
              let out : f.output ≡ flow * buy_lot = ground arith in ground arith,
        )
    | inr (inl (x, e2)) ↦ ground arith
    | inr (inr e2) ↦ ground arith
  ]
  | inr (inl (x, e)) ↦ ground arith
  | inr (inr e) ↦ ground arith
]

settle_lots_sums :
    (lots : List ℕ) (os : List FlowIntent) (flows : List ℕ) (cleared : ℕ) (l : Ledger) (t : Settled)
    (a : ℕ)
    → bad_lot lots ≡ false
    → settle_lots lots os flows cleared l ≡ ok t
    → (get_or t.ledger.debit a 0 ≡ get_or l.debit a 0 + sold a os t.fills)
      × (get_or t.ledger.credit a 0 ≡ get_or l.credit a 0 + bought a os t.fills)
      × Fair os t.fills
unfolding settle_lots sold bought Fair
settle_lots_sums lots [] flows cleared l t a g h = ground arith
settle_lots_sums lots (o ∷ os) [] cleared l t a g h = ground arith
settle_lots_sums lots (o ∷ os) (flow ∷ flows) cleared l t a g h =
    let (f, filled, h2) = >>=-eq-ok (lot_fill lots o flow) _ h in
    let (cleared', _, h3) = >>=-eq-ok (checked_add u128_mod cleared flow arithmetic) _ h2 in
    let (l', posted, h4) = >>=-eq-ok (post l o f) _ h3 in
    let (rest, settled, h5) = >>=-eq-ok (settle_lots lots os flows cleared' l') _ h4 in
    let (debit, credit, fair) = settle_lots_sums lots os flows cleared' l' rest a g settled in
    let (d, c) = post_get l l' o f a posted in
    subst
      (λ (t : Settled).
        (get_or t.ledger.debit a 0 ≡ get_or l.debit a 0 + sold a (o ∷ os) t.fills)
        × (get_or t.ledger.credit a 0 ≡ get_or l.credit a 0 + bought a (o ∷ os) t.fills)
        × Fair (o ∷ os) t.fills)
      (ok-inj h5) (omega arith, omega arith, (lot_fill-Fair lots o flow f g filled, fair))

conclude_lots_sums :
    (orders : List FlowIntent) (lots : List ℕ) (taken : Intake) (f : Folding) (r : LotFoldReport)
    → bad_lot lots ≡ false
    → conclude_lots orders lots taken f ≡ ok r
    → Fair orders r.fills × ((a : ℕ) → sold a orders r.fills ≡ bought a orders r.fills)
unfolding conclude_lots
conclude_lots_sums orders lots taken f r g h =
    elim (Outcome-cases (settle_lots lots orders f.flows 0 new_ledger)) [
      | inl (t, e) ↦
          let fills : t.fills ≡ r.fills = ground arith in
          let even : balanced t.ledger ≡ true = ground arith in
          let sums = λ (a : ℕ). settle_lots_sums lots orders f.flows 0 new_ledger t a g e in
          subst (λ fs. Fair orders fs × ((a : ℕ) → sold a orders fs ≡ bought a orders fs)) fills
            (
              (sums 0).2,
              λ a.
                  let (d, c, fair) = sums a in
                  ground (arith, same_get t.ledger.debit t.ledger.credit a even, zeros 8 a),
            )
      | inr (inl (x, e)) ↦ ground arith
      | inr (inr e) ↦ ground arith
    ]

-- Every report of `fold_lots` gives each order no worse than its limit, and of each asset pays out
-- exactly what it takes in.
pub fold_lots-conserves :
    (orders : List FlowIntent) (lots : List ℕ) (slot pivots : ℕ) (m : WorkMeter) (r : LotFoldReport)
    → (fold_lots orders lots slot pivots m).0 ≡ ok r
    → Fair orders r.fills × ((a : ℕ) → sold a orders r.fills ≡ bought a orders r.fills)
unfolding fold_lots prepare_lots
fold_lots-conserves orders lots slot pivots m r h =
    let (taken, prepared, h2) =
      Meter.>>=-eq-ok (lift (prepare_lots orders lots slot pivots)) _ m r h in
    let (f, _, h3) =
      Meter.>>=-eq-ok
        (pivot_all orders taken.capacities (length lots) pivots (idle (length orders))) _ _ r h2 in
    let (g, _, concluded) =
      Meter.>>=-eq-ok (certify orders taken.capacities (length lots) f) _ _ r h3 in
    conclude_lots_sums orders lots taken g r (ground arith) concluded
