-- ===== src/Clearing/Groups.antt =====
-- engine/stockmesh/clearing/mod.rs: the residual groups hold what the fold left.
use xtxc.Common.{
  ℕ, suc, ◌+◌, ◌-◌, ◌≡◌, subst, inl, inr, arith, ◌&&◌, List, [], ◌∷◌, ◌==◌, if◌then◌else◌,
  Bool-cases,
}
use xtxc.Common.Outcome.{ok, Outcome-cases}
use xtxc.Clearing.{FlowIntent, FoldFill, FoldReport}
use xtxc.Clearing.Residual.{ResidualGroup, join, join_first, build_residuals, residuals}

-- The amount and the floor that the groups of a pair hold.
unfoldable pub held_in : ℕ → ℕ → List ResidualGroup → ℕ
held_in a b [] = 0
held_in a b (g ∷ gs) = (if g.sell == a && g.buy == b then g.amount_in else 0) + held_in a b gs

unfoldable pub held_out : ℕ → ℕ → List ResidualGroup → ℕ
held_out a b [] = 0
held_out a b (g ∷ gs) = (if g.sell == a && g.buy == b then g.min_out else 0) + held_out a b gs

-- What the orders of a pair have left, and still ask for.
unfoldable pub left_in : ℕ → ℕ → List FlowIntent → List FoldFill → ℕ
left_in a b (o ∷ os) (f ∷ fs) =
    (if o.sell == a && o.buy == b then o.amount - f.input else 0) + left_in a b os fs
left_in a b _ _ = 0

unfoldable pub left_out : ℕ → ℕ → List FlowIntent → List FoldFill → ℕ
left_out a b (o ∷ os) (f ∷ fs) =
    (if o.sell == a && o.buy == b then o.min_out - f.output else 0) + left_out a b os fs
left_out a b _ _ = 0

join_cases :
    (i amount floor : ℕ) (g g' : ResidualGroup)
    → join i amount floor g ≡ ok g'
    → (g'.sell ≡ g.sell)
      × (g'.buy ≡ g.buy)
      × (g'.amount_in ≡ g.amount_in + amount)
      × (g'.min_out ≡ g.min_out + floor)
unfolding join
join_cases i amount floor g g' h = ground arith

module _ (a b : ℕ) where
  -- The groups after an order has joined them with `amount` and `floor`.
  abbrev Grown : FlowIntent → ℕ → ℕ → List ResidualGroup → List ResidualGroup → Type 0
  Grown o amount floor gs gs' =
      (held_in a b gs' ≡ held_in a b gs + (if o.sell == a && o.buy == b then amount else 0))
      × (held_out a b gs' ≡ held_out a b gs + (if o.sell == a && o.buy == b then floor else 0))

  join_first_sums :
      (count i : ℕ) (o : FlowIntent) (amount floor : ℕ) (gs gs' : List ResidualGroup)
      → join_first count i o amount floor gs ≡ ok gs'
      → Grown o amount floor gs gs'
  unfolding join_first held_in held_out
  join_first_sums count i o amount floor [] gs' h =
      let fresh : ResidualGroup = record {
        sell = o.sell;
        buy = o.buy;
        amount_in = 0;
        min_out = 0;
        members = 0;
      } in
      elim (Outcome-cases (join i amount floor fresh)) [
        | inl (g, e) ↦
            let shape : g ∷ [] ≡ gs' = ground arith in
            let k = join_cases i amount floor fresh g e in
            subst (Grown o amount floor []) shape (ground arith, ground arith)
        | inr (inl (x, e)) ↦ ground arith
        | inr (inr e) ↦ ground arith
      ]
  join_first_sums count i o amount floor (g ∷ gs) gs' h =
      elim (Bool-cases (g.sell == o.sell && g.buy == o.buy)) [
        | inl joins ↦ elim (Outcome-cases (join i amount floor g)) [
          | inl (g', e) ↦
              let shape : g' ∷ gs ≡ gs' = ground arith in
              let k = join_cases i amount floor g g' e in
              subst (Grown o amount floor (g ∷ gs)) shape (ground arith, ground arith)
          | inr (inl (x, e)) ↦ ground arith
          | inr (inr e) ↦ ground arith
        ]
        | inr passes ↦ elim (Outcome-cases (join_first (suc count) i o amount floor gs)) [
          | inl (rest, e) ↦
              let shape : g ∷ rest ≡ gs' = ground arith in
              let k = join_first_sums (suc count) i o amount floor gs rest e in
              subst (Grown o amount floor (g ∷ gs)) shape (ground arith, ground arith)
          | inr (inl (x, e)) ↦ ground arith
          | inr (inr e) ↦ ground arith
        ]
      ]

  build_residuals_sums :
      (i : ℕ) (os : List FlowIntent) (fs : List FoldFill) (gs gs' : List ResidualGroup)
      → build_residuals i os fs gs ≡ ok gs'
      → (held_in a b gs' ≡ held_in a b gs + left_in a b os fs)
        × (held_out a b gs' ≡ held_out a b gs + left_out a b os fs)
  unfolding build_residuals left_in left_out
  build_residuals_sums i [] fs gs gs' h =
      let e : gs ≡ gs' = ground arith in
      subst (λ xs. (held_in a b xs ≡ held_in a b gs + 0) × (held_out a b xs ≡ held_out a b gs + 0))
        e (ground arith, ground arith)
  build_residuals_sums i (o ∷ os) [] gs gs' h = ground arith
  build_residuals_sums i (o ∷ os) (f ∷ fs) gs gs' h = elim (Bool-cases (o.amount - f.input == 0)) [
    | inl spent ↦ let k = build_residuals_sums (suc i) os fs gs gs' (ground arith) in ground arith
    | inr left ↦
        elim (Outcome-cases (join_first 0 i o (o.amount - f.input) (o.min_out - f.output) gs)) [
          | inl (gs2, e) ↦
              let k = join_first_sums 0 i o (o.amount - f.input) (o.min_out - f.output) gs gs2 e in
              let rest = build_residuals_sums (suc i) os fs gs2 gs' (ground arith) in ground arith
          | inr (inl (x, e)) ↦ ground arith
          | inr (inr e) ↦ ground arith
        ]
  ]

-- The residual groups of each pair hold exactly what a fold left of the pair's orders: the sum of
-- the remaining amounts, and the sum of the outputs still missing.
pub residuals_complete :
    (orders : List FlowIntent) (r : FoldReport) (gs : List ResidualGroup) (a b : ℕ)
    → residuals orders r ≡ ok gs
    → (held_in a b gs ≡ left_in a b orders r.fills)
      × (held_out a b gs ≡ left_out a b orders r.fills)
unfolding residuals held_in held_out
residuals_complete orders r gs a b h =
    let k : build_residuals 0 orders r.fills [] ≡ ok gs = ground arith in
    let sums = build_residuals_sums a b 0 orders r.fills [] gs k in (ground arith, ground arith)
