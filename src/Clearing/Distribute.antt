-- ===== src/Clearing/Distribute.antt =====
-- engine/stockmesh/clearing/mod.rs: the distribution of what a venue paid for a residual group.
use xtxc.Common.{
  ℕ, zero, suc, ◌+◌, ◌-◌, ◌≡◌, sym, subst, ◌≤◌, inl, inr, arith, true, Option, none, List, [], ◌∷◌,
  set, Bool-cases,
}
use xtxc.Common.Outcome.{ok, bounds, ok_or, index, as_u64, >>=-eq-ok, Outcome-cases}
use xtxc.Clearing.{FlowIntent, FoldFill, FoldReport}
use xtxc.Clearing.Residual.{
  ResidualGroup, Shares, share, share_out, add_dust, distribute, residuals, earliest, is_member,
}

unfoldable pub sum : List ℕ → ℕ
sum [] = 0
sum (x ∷ xs) = x + sum xs

-- With `outs`, every member's output reaches the floor of its order.
unfoldable pub Floored : ℕ → ℕ → List FlowIntent → List FoldFill → List ℕ → Type 0
Floored members i (o ∷ os) (f ∷ fs) (x ∷ xs) =
    (is_member members i ≡ true → o.min_out ≤ f.output + x) × Floored members (suc i) os fs xs
Floored members i _ _ _ = Unit

share_least :
    (surplus : ℕ) (g : ResidualGroup) (o : FlowIntent) (f : FoldFill) (part : ℕ)
    → share surplus g o f ≡ ok part
    → o.min_out ≤ f.output + part
unfolding share as_u64
share_least surplus g o f part h = ground arith

share_out-sum :
    (surplus : ℕ) (g : ResidualGroup) (i : ℕ) (os : List FlowIntent) (fs : List FoldFill)
    (allocated : ℕ) (first : Option (ℕ × FlowIntent)) (s : Shares)
    → share_out surplus g i os fs allocated first ≡ ok s
    → (s.allocated ≡ allocated + sum s.out) × Floored g.members i os fs s.out
unfolding share_out sum Floored
share_out-sum surplus g i [] fs allocated first s h = (ground arith, tt)
share_out-sum surplus g i (o ∷ os) [] allocated first s h = ground arith
share_out-sum surplus g i (o ∷ os) (f ∷ fs) allocated first s h =
    elim (Bool-cases (is_member g.members i)) [
      | inl member ↦ elim (Outcome-cases (share surplus g o f)) [
        | inl (part, e) ↦
            elim (Outcome-cases
              (share_out surplus g (suc i) os fs (allocated + part) (earliest i o first))) [
                | inl (rest, e2) ↦
                    let outs : part ∷ rest.out ≡ s.out = ground arith in
                    let (sums, floors) = share_out-sum surplus g (suc i) os fs _ _ rest e2 in
                    let least = share_least surplus g o f part e in
                    (
                      ground arith,
                      subst (λ xs. Floored g.members i (o ∷ os) (f ∷ fs) xs) outs
                          ((λ k. least), floors),
                    )
                | inr (inl (x, e2)) ↦ ground arith
                | inr (inr e2) ↦ ground arith
              ]
        | inr (inl (x, e)) ↦ ground arith
        | inr (inr e) ↦ ground arith
      ]
      | inr other ↦ elim (Outcome-cases (share_out surplus g (suc i) os fs allocated first)) [
        | inl (rest, e2) ↦
            let outs : 0 ∷ rest.out ≡ s.out = ground arith in
            let (sums, floors) = share_out-sum surplus g (suc i) os fs _ _ rest e2 in
            (
              ground arith,
              subst (λ xs. Floored g.members i (o ∷ os) (f ∷ fs) xs) outs
                  ((λ k. ground arith), floors),
            )
        | inr (inl (x, e2)) ↦ ground arith
        | inr (inr e2) ↦ ground arith
      ]
    ]

sum-set :
    (xs : List ℕ) (i x y : ℕ) → index xs i ≡ ok x → x ≤ y → sum (set xs i y) ≡ sum xs + (y - x)
unfolding sum
sum-set [] i x y h k = ground arith
sum-set (z ∷ zs) zero x y h k = ground arith
sum-set (z ∷ zs) (suc i) x y h k = ground (arith, sum-set zs i x y h k)

set-Floored :
    (members i : ℕ) (os : List FlowIntent) (fs : List FoldFill) (xs : List ℕ) (j x y : ℕ)
    → index xs j ≡ ok x
    → x ≤ y
    → Floored members i os fs xs
    → Floored members i os fs (set xs j y)
unfolding Floored
set-Floored members i [] fs xs j x y h k v = tt
set-Floored members i (o ∷ os) [] xs j x y h k v = tt
set-Floored members i (o ∷ os) (f ∷ fs) [] j x y h k v = tt
set-Floored members i (o ∷ os) (f ∷ fs) (z ∷ zs) zero x y h k v =
    ((λ e. let a = v.0 e in ground arith), v.1)
set-Floored members i (o ∷ os) (f ∷ fs) (z ∷ zs) (suc j) x y h k v =
    (v.0, set-Floored members (suc i) os fs zs j x y h k v.1)

add_dust_cases :
    (s : Shares) (dust : ℕ) (outs : List ℕ)
    → add_dust s dust ≡ ok outs
    → (j : ℕ) × (x : ℕ) × (index s.out j ≡ ok x) × (outs ≡ set s.out j (x + dust))
unfolding add_dust
add_dust_cases s dust outs h =
    let (target, _, h2) = >>=-eq-ok (ok_or s.first bounds) _ h in
    let (x, e, h3) = >>=-eq-ok (index s.out target.0) _ h2 in (target.0, x, e, ground arith)

distribute_cases :
    (orders : List FlowIntent) (folded : FoldReport) (g : ResidualGroup) (observed_output : ℕ)
    (outs : List ℕ)
    → distribute orders folded g observed_output ≡ ok outs
    → (s : Shares) × (share_out (observed_output - g.min_out) g 0 orders folded.fills 0 none ≡ ok s)
      × (s.allocated ≤ observed_output)
      × (add_dust s (observed_output - s.allocated) ≡ ok outs)
unfolding distribute
distribute_cases orders folded g observed_output outs h =
    elim (Outcome-cases (residuals orders folded)) [
      | inl (expected, e) ↦
          elim (Outcome-cases
            (share_out (observed_output - g.min_out) g 0 orders folded.fills 0 none)) [
              | inl (s, f) ↦ (s, f, ground arith, ground arith)
              | inr (inl (x, f)) ↦ ground arith
              | inr (inr f) ↦ ground arith
            ]
      | inr (inl (x, e)) ↦ ground arith
      | inr (inr e) ↦ ground arith
    ]

-- A distribution hands out exactly what the venue paid, and brings every member at least to the
-- floor of its order.
pub distribute_exact :
    (orders : List FlowIntent) (folded : FoldReport) (g : ResidualGroup) (observed_output : ℕ)
    (outs : List ℕ)
    → distribute orders folded g observed_output ≡ ok outs
    → (sum outs ≡ observed_output) × Floored g.members 0 orders folded.fills outs
distribute_exact orders folded g observed_output outs h =
    let (s, shared, most, dusted) = distribute_cases orders folded g observed_output outs h in
    let (sums, floors) = share_out-sum _ g 0 orders folded.fills 0 none s shared in
    let (j, x, at, e) = add_dust_cases s _ outs dusted in
    let paid = sum-set s.out j x (x + (observed_output - s.allocated)) at (ground arith) in
    let kept =
      set-Floored g.members 0 orders folded.fills s.out j x (x + (observed_output - s.allocated)) at
        (ground arith) floors in
    subst (λ outs. (sum outs ≡ observed_output) × Floored g.members 0 orders folded.fills outs)
      (sym e) (ground arith, kept)
