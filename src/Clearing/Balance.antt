-- ===== src/Clearing/Balance.antt =====
-- engine/stockmesh/clearing/mod.rs: the orders' sums by asset, and what `validate_fold` accepts.
use xtxc.Common.{
  ℕ, zero, suc, ◌+◌, ◌*◌, ◌≡◌, refl, ◌≤◌, inl, inr, arith, true, List, [], ◌∷◌, ◌==◌, if◌then◌else◌,
  get_or, set, replicate,
}
use xtxc.Common.Outcome.{ok, index, >>=-eq-ok, Outcome-cases}
use xtxc.Clearing.{FlowIntent, FoldFill, FoldReport, Ledger, add_at, post, same, new_ledger}
use xtxc.Clearing.Fold.{check_fills, validate_fold}

-- What the orders that sell asset `a` pay, and what those that buy it get.
unfoldable pub sold : ℕ → List FlowIntent → List FoldFill → ℕ
sold a [] fs = 0
sold a (o ∷ os) [] = 0
sold a (o ∷ os) (f ∷ fs) = (if o.sell == a then f.input else 0) + sold a os fs

unfoldable pub bought : ℕ → List FlowIntent → List FoldFill → ℕ
bought a [] fs = 0
bought a (o ∷ os) [] = 0
bought a (o ∷ os) (f ∷ fs) = (if o.buy == a then f.output else 0) + bought a os fs

-- Every fill is within its order.
unfoldable pub Fair : List FlowIntent → List FoldFill → Type 0
Fair [] fs = Unit
Fair (o ∷ os) [] = Unit
Fair (o ∷ os) (f ∷ fs) =
    ((f.input ≤ o.amount)
      × (f.input * o.min_out ≤ f.output * o.amount)
      × (f.input ≡ 0 → f.output ≡ 0))
    × Fair os fs

add_at_get :
    (xs ys : List ℕ) (i v a : ℕ)
    → add_at xs i v ≡ ok ys
    → get_or ys a 0 ≡ get_or xs a 0 + (if i == a then v else 0)
unfolding add_at
add_at_get [] ys i v a h = ground arith
add_at_get (x ∷ xs) ys zero v zero h = ground arith
add_at_get (x ∷ xs) ys zero v (suc a) h = ground arith
add_at_get (x ∷ xs) ys (suc i) v zero h = elim (Outcome-cases (index xs i)) [
  | inl (y, e) ↦ let rest = add_at_get xs (set xs i (y + v)) i v 0 (ground arith) in ground arith
  | inr (inl (y, e)) ↦ ground arith
  | inr (inr e) ↦ ground arith
]
add_at_get (x ∷ xs) ys (suc i) v (suc a) h = elim (Outcome-cases (index xs i)) [
  | inl (y, e) ↦ let rest = add_at_get xs (set xs i (y + v)) i v a (ground arith) in ground arith
  | inr (inl (y, e)) ↦ ground arith
  | inr (inr e) ↦ ground arith
]

pub post_get :
    (l l' : Ledger) (o : FlowIntent) (f : FoldFill) (a : ℕ)
    → post l o f ≡ ok l'
    → (get_or l'.debit a 0 ≡ get_or l.debit a 0 + (if o.sell == a then f.input else 0))
      × (get_or l'.credit a 0 ≡ get_or l.credit a 0 + (if o.buy == a then f.output else 0))
unfolding post
post_get l l' o f a h =
    let (d, hd, h2) = >>=-eq-ok (add_at l.debit o.sell f.input) _ h in
    let (c, hc, h3) = >>=-eq-ok (add_at l.credit o.buy f.output) _ h2 in
    ground
      (arith, add_at_get l.debit d o.sell f.input a hd, add_at_get l.credit c o.buy f.output a hc)

check_fills_sums :
    (os : List FlowIntent) (fs : List FoldFill) (l l' : Ledger) (a : ℕ)
    → check_fills os fs l ≡ ok l'
    → (get_or l'.debit a 0 ≡ get_or l.debit a 0 + sold a os fs)
      × (get_or l'.credit a 0 ≡ get_or l.credit a 0 + bought a os fs)
      × Fair os fs
unfolding check_fills sold bought Fair
check_fills_sums [] fs l l' a h = ground arith
check_fills_sums (o ∷ os) [] l l' a h = ground arith
check_fills_sums (o ∷ os) (f ∷ fs) l l' a h = elim (Outcome-cases (post l o f)) [
  | inl (t, e) ↦
      let rest = check_fills_sums os fs t l' a (ground arith) in
      let step = post_get l t o f a e in
      (ground arith, ground arith, ((ground arith, ground arith, ground arith), rest.2))
  | inr (inl (x, e)) ↦ ground arith
  | inr (inr e) ↦ ground arith
]

pub same_get : (xs ys : List ℕ) (a : ℕ) → same xs ys ≡ true → get_or xs a 0 ≡ get_or ys a 0
unfolding same
same_get [] [] a h = refl
same_get [] (y ∷ ys) a h = ground arith
same_get (x ∷ xs) [] a h = ground arith
same_get (x ∷ xs) (y ∷ ys) zero h = ground arith
same_get (x ∷ xs) (y ∷ ys) (suc a) h = same_get xs ys a (ground arith)

pub zeros : (n a : ℕ) → get_or {A = ℕ} (replicate n 0) a 0 ≡ 0
zeros zero a = refl
zeros (suc n) zero = refl
zeros (suc n) (suc a) = zeros n a

-- A report that `validate_fold` accepts gives every order no worse than its limit, and of each
-- asset pays out exactly what it takes in.
pub validate_fold_conserves :
    (orders : List FlowIntent) (r : FoldReport)
    → validate_fold orders r ≡ ok tt
    → Fair orders r.fills × ((a : ℕ) → sold a orders r.fills ≡ bought a orders r.fills)
unfolding validate_fold
validate_fold_conserves orders r h = elim (Outcome-cases (check_fills orders r.fills new_ledger)) [
  | inl (l, e) ↦
      let sums = λ (a : ℕ). check_fills_sums orders r.fills new_ledger l a e in
      (
        (sums 0).2,
        λ a. let (d, c, f) = sums a in ground (arith, same_get l.debit l.credit a, zeros 8 a),
      )
  | inr (inl (x, e)) ↦ ground arith
  | inr (inr e) ↦ ground arith
]
