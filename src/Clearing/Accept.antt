-- ===== src/Clearing/Accept.antt =====
-- engine/stockmesh/clearing/mod.rs: `validate_fold` accepts every report of `fold`.
use xtxc.Common.{
  ℕ, zero, suc, ◌*◌, ◌/◌, ◌≡◌, subst, ◌≤◌, ◌<◌, inl, inr, arith, false, List, [], ◌∷◌, ◌==◌, length,
  All,
}
use xtxc.Common.Outcome.{ok, index, as_u64, add_word, u128_mod, >>=-eq-ok, Outcome-cases, ok-inj}
use xtxc.Common.Meter.{Metered, WorkMeter, lift}
use xtxc.Common.Meter
use xtxc.Clearing.{
  FlowIntent, FoldFill, FoldReport, Folding, Ledger, post, new_ledger, check_intent,
}
use xtxc.Clearing.Cycle.{pivot_all, certify}
use xtxc.Clearing.Fold.{
  check_fills, validate_fold, invalid_fill, fold, prepare, conclude, Prepared, settle, Settled,
  fill_of, intake, Intake, quantum_of, idle,
}
use xtxc.Clearing.Quantum.{Divides, quantum_of-All, quotient, product_pos}
use xtxc.Clearing.Balance.{sold, bought, Fair, validate_fold_conserves}

abbrev Sane : FlowIntent → Type 0
Sane o = (o.sell < 8) × (o.buy < 8) × ((o.sell == o.buy) ≡ false) × (0 < o.amount)

check_intent-Sane :
    (n slot : ℕ) (earlier : List FlowIntent) (o : FlowIntent)
    → n ≤ 8
    → check_intent n slot earlier o ≡ ok tt
    → Sane o
unfolding check_intent
check_intent-Sane n slot earlier o k h = ground arith

intake_cons :
    (prices : List ℕ) (quantum slot : ℕ) (earlier : List FlowIntent) (o : FlowIntent)
    (os : List FlowIntent) (requested : ℕ) (t : Intake)
    → intake prices quantum slot earlier (o ∷ os) requested ≡ ok t
    → (check_intent (length prices) slot earlier o ≡ ok tt)
      × ((more : ℕ) × (rest : Intake) × (intake prices quantum slot (o ∷ earlier) os more
            ≡ ok rest))
unfolding intake
intake_cons prices quantum slot earlier o os requested t h =
    let (_, checked, h2) = >>=-eq-ok (check_intent (length prices) slot earlier o) _ h in
    let (sell_price, _, h3) = >>=-eq-ok (index prices o.sell) _ h2 in
    let (more, _, h4) = >>=-eq-ok (add_word u128_mod requested (o.amount * sell_price)) _ h3 in
    let (buy_price, _, h5) = >>=-eq-ok (index prices o.buy) _ h4 in
    let (rest, k, _) = >>=-eq-ok (intake prices quantum slot (o ∷ earlier) os more) _ h5 in
    (checked, (more, rest, k))

intake-Sane :
    (prices : List ℕ) (quantum slot : ℕ) (earlier os : List FlowIntent) (requested : ℕ) (t : Intake)
    → length prices ≤ 8
    → intake prices quantum slot earlier os requested ≡ ok t
    → All Sane os
intake-Sane prices quantum slot earlier [] requested t k h = tt
intake-Sane prices quantum slot earlier (o ∷ os) requested t k h =
    let (checked, (more, rest, h2)) = intake_cons prices quantum slot earlier o os requested t h in
    (
      check_intent-Sane (length prices) slot earlier o k checked,
      intake-Sane prices quantum slot (o ∷ earlier) os more rest k h2,
    )

module _ (P : ℕ → Type 0) where
  index-All : (xs : List ℕ) (i x : ℕ) → All P xs → index xs i ≡ ok x → P x
  index-All [] i x a h = ground arith
  index-All (y ∷ ys) zero x a h = subst P (ok-inj h) a.0
  index-All (y ∷ ys) (suc i) x a h = index-All ys i x a.1 h

-- A flow that pays nothing brings nothing, since the quantum is a multiple of the price.
nothing_in :
    (flow quantum price other k : ℕ)
    → 0 < price
    → quantum ≡ k * price
    → 0 < quantum
    → flow * quantum / price ≡ 0
    → flow * quantum / other ≡ 0
nothing_in zero quantum price other k p e z h = ground arith
nothing_in (suc flow) quantum price other k p e z h =
    let gap : 0 < k = ground (arith, e, z) in
    let shape : suc flow * quantum ≡ (suc flow * k) * price = ground (arith, e) in
    let exact = quotient (suc flow * quantum) price (suc flow * k) p shape in
    ground (arith, exact, product_pos (suc flow) k)

module _ (prices : List ℕ) (quantum : ℕ) (good : All (λ p. (0 < p) × Divides p quantum) prices)
    (z : 0 < quantum) where
  fill_of-valid :
      (o : FlowIntent) (flow : ℕ) (f : FoldFill)
      → Sane o
      → fill_of prices quantum o flow ≡ ok f
      → invalid_fill o f ≡ false
  unfolding fill_of as_u64
  fill_of-valid o flow f s h = elim (Outcome-cases (index prices o.sell)) [
    | inl (sell_price, e) ↦ elim (Outcome-cases (index prices o.buy)) [
      | inl (buy_price, e2) ↦
          let (p, (k, d)) =
            index-All (λ p. (0 < p) × Divides p quantum) prices o.sell sell_price good e in
          let rest = nothing_in flow quantum sell_price buy_price k p d z in ground arith
      | inr (inl (x, e2)) ↦ ground arith
      | inr (inr e2) ↦ ground arith
    ]
    | inr (inl (x, e)) ↦ ground arith
    | inr (inr e) ↦ ground arith
  ]

  settle_checked :
      (os : List FlowIntent) (flows : List ℕ) (cleared : ℕ) (l : Ledger) (t : Settled)
      → All Sane os
      → settle prices quantum os flows cleared l ≡ ok t
      → check_fills os t.fills l ≡ ok t.ledger
  unfolding settle check_fills
  settle_checked [] flows cleared l t s h = ground arith
  settle_checked (o ∷ os) [] cleared l t s h = ground arith
  settle_checked (o ∷ os) (flow ∷ flows) cleared l t s h =
      let (f, filled, h2) = >>=-eq-ok (fill_of prices quantum o flow) _ h in
      let (cleared', _, h3) = >>=-eq-ok (add_word u128_mod cleared (flow * quantum)) _ h2 in
      let (l', posted, h4) = >>=-eq-ok (post l o f) _ h3 in
      let (rest, settled, h5) = >>=-eq-ok (settle prices quantum os flows cleared' l') _ h4 in
      let tail = settle_checked os flows cleared' l' rest s.1 settled in
      let valid = fill_of-valid o flow f s.0 filled in
      let joined : check_fills (o ∷ os) (f ∷ rest.fills) l ≡ ok rest.ledger = ground arith in
      subst (λ t. check_fills (o ∷ os) t.fills l ≡ ok t.ledger) (ok-inj h5) joined

prepare_cases :
    (orders : List FlowIntent) (prices : List ℕ) (slot pivots : ℕ) (p : Prepared)
    → prepare orders prices slot pivots ≡ ok p
    → (length orders ≤ 32)
      × All Sane orders
      × All (λ p'. (0 < p') × Divides p' p.quantum) prices
      × (0 < p.quantum)
unfolding prepare
prepare_cases orders prices slot pivots p h = elim (Outcome-cases (quantum_of prices 1)) [
  | inl (q, e) ↦ elim (Outcome-cases (intake prices q slot [] orders 0)) [
    | inl (t, f) ↦
        let (_, good, z) = quantum_of-All prices 1 q (ground arith) e in
        let same_quantum : q ≡ p.quantum = ground arith in
        (
          ground arith,
          intake-Sane prices q slot [] orders 0 t (ground arith) f,
          subst (λ q. All (λ p'. (0 < p') × Divides p' q) prices) same_quantum good,
          ground arith,
        )
    | inr (inl (x, f)) ↦ ground arith
    | inr (inr f) ↦ ground arith
  ]
  | inr (inl (x, e)) ↦ ground arith
  | inr (inr e) ↦ ground arith
]

conclude-valid :
    (orders : List FlowIntent) (prices : List ℕ) (p : Prepared) (f : Folding) (r : FoldReport)
    → length orders ≤ 32
    → All Sane orders
    → All (λ p'. (0 < p') × Divides p' p.quantum) prices
    → 0 < p.quantum
    → conclude orders prices p f ≡ ok r
    → validate_fold orders r ≡ ok tt
unfolding conclude validate_fold
conclude-valid orders prices p f r few sane good z h =
    elim (Outcome-cases (settle prices p.quantum orders f.flows 0 new_ledger)) [
      | inl (t, e) ↦
          let checked =
            settle_checked prices p.quantum good z orders f.flows 0 new_ledger t sane e in
          ground arith
      | inr (inl (x, e)) ↦ ground arith
      | inr (inr e) ↦ ground arith
    ]

-- Every report of `fold` passes `validate_fold`.
pub fold-valid :
    (orders : List FlowIntent) (prices : List ℕ) (slot pivots : ℕ) (m : WorkMeter) (r : FoldReport)
    → (fold orders prices slot pivots m).0 ≡ ok r
    → validate_fold orders r ≡ ok tt
unfolding fold
fold-valid orders prices slot pivots m r h =
    let (p, prepared, h2) = Meter.>>=-eq-ok (lift (prepare orders prices slot pivots)) _ m r h in
    let (f, _, h3) =
      Meter.>>=-eq-ok
        (pivot_all orders p.taken.capacities (length prices) pivots (idle (length orders))) _ _ r
        h2 in
    let (g, _, concluded) =
      Meter.>>=-eq-ok (certify orders p.taken.capacities (length prices) f) _ _ r h3 in
    let (few, sane, good, z) = prepare_cases orders prices slot pivots p prepared in
    conclude-valid orders prices p g r few sane good z concluded

-- Every report of `fold` gives each order no worse than its limit, and of each asset pays out
-- exactly what it takes in.
pub fold-conserves :
    (orders : List FlowIntent) (prices : List ℕ) (slot pivots : ℕ) (m : WorkMeter) (r : FoldReport)
    → (fold orders prices slot pivots m).0 ≡ ok r
    → Fair orders r.fills × ((a : ℕ) → sold a orders r.fills ≡ bought a orders r.fills)
fold-conserves orders prices slot pivots m r h =
    validate_fold_conserves orders r (fold-valid orders prices slot pivots m r h)
