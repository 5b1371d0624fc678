-- ===== src/Optimizer/Price.antt =====
-- engine/stockmesh/optimizer/mod.rs: how far a price separates the atoms of a venue that are worth
-- taking from those that are not.
use native.Mathlib.Nat.{add-zero, add-suc, le_refl}
use xtxc.Common.{
  ℕ, zero, suc, ◌+◌, ◌-◌, ◌*◌, ◌≤◌, ◌<◌, ◌≡◌, List, [], ◌∷◌, arith, leb, Bool-cases, inl, inr, ◌∙◌,
  ap, refl, take, drop, get_elem?, some, none,
}
use xtxc.Compiler.{Segment}
use xtxc.Compiler.Bands.{area, total, Falls, rate_at, area-suc, rate_at-le}

-- Every atom before `t` brings at least the price, and every atom from `t` on at most the price.
pub record Splits (price t : ℕ) (ss : List Segment) : Type 0 where
  pub above : (k : ℕ) → k < t → price ≤ rate_at k ss
  pub under : (k : ℕ) → t ≤ k → rate_at k ss ≤ price

area_rises :
    (price t d : ℕ) (ss : List Segment)
    → ((k : ℕ) → t ≤ k → rate_at k ss ≤ price)
    → area (t + d) ss ≤ area t ss + price * d
area_rises price t zero ss h = simp add-zero (omega arith)
area_rises price t (suc d) ss h =
    simp add-suc
      (omega (arith, area-suc (t + d) ss, h (t + d) (omega arith), area_rises price t d ss h))

area_holds :
    (price y d : ℕ) (ss : List Segment)
    → ((k : ℕ) → k < y + d → price ≤ rate_at k ss)
    → area y ss + price * d ≤ area (y + d) ss
area_holds price y zero ss h = simp add-zero (omega arith)
area_holds price y (suc d) ss h = simp add-suc (
    omega (
      arith,
      area-suc (y + d) ss,
      h (y + d) (omega arith),
      area_holds price y d ss (λ k p. h k (omega arith)),
    ))

pub area_levels :
    (price t d : ℕ) (ss : List Segment)
    → ((k : ℕ) → k < d → rate_at (t + k) ss ≡ price)
    → area (t + d) ss ≡ area t ss + price * d
area_levels price t zero ss h = simp add-zero (omega arith)
area_levels price t (suc d) ss h = simp add-suc (
    omega (
      arith,
      area-suc (t + d) ss,
      h d (omega arith),
      area_levels price t d ss (λ k p. h k (omega arith)),
    ))

-- At that price no other amount beats `t`.
pub Splits-best :
    (price t y : ℕ) (ss : List Segment)
    → Splits price t ss
    → area y ss + price * t ≤ area t ss + price * y
Splits-best price t y ss s = elim (Bool-cases (leb t y)) [
  | inl more ↦ let e : t + (y - t) ≡ y = ground arith in rw e at (later (y - t))
  | inr less ↦
      let e : y + (t - y) ≡ t = ground arith in
      let p : area y ss + price * (y + (t - y)) ≤ area (y + (t - y)) ss + price * y =
        earlier (t - y) e in
      rw e at p
]
  where
    later : (d : ℕ) → area (t + d) ss + price * t ≤ area t ss + price * (t + d)
    later d = omega (arith, area_rises price t d ss s.under)

    earlier : (d : ℕ) → y + d ≡ t → area y ss + price * (y + d) ≤ area (y + d) ss + price * y
    earlier d e = omega (arith, area_holds price y d ss (λ k p. s.above k (omega arith)))

rate_at_left :
    (c k : ℕ) (ss : List Segment) → rate_at (total (take c ss) + k) ss ≡ rate_at k (drop c ss)
unfolding rate_at total
rate_at_left zero k ss = ground arith
rate_at_left (suc c) k [] = refl
rate_at_left (suc c) k (s ∷ ss) = ground (arith, rate_at_left c k ss)

pub drop_head :
    (c : ℕ) (s : Segment) (ss : List Segment)
    → get_elem? ss c ≡ some s
    → drop c ss ≡ s ∷ drop (suc c) ss
drop_head c s [] e = cc
drop_head zero s (x ∷ ss) e = ground arith
drop_head (suc c) s (x ∷ ss) e = drop_head c s ss e

pub drop-none : (c : ℕ) (ss : List Segment) → get_elem? ss c ≡ none → drop c ss ≡ []
drop-none zero [] e = refl
drop-none (suc c) [] e = refl
drop-none zero (x ∷ ss) e = cc
drop-none (suc c) (x ∷ ss) e = drop-none c ss e

drop-Falls : (c prev : ℕ) (ss : List Segment) → Falls prev ss → Falls prev (drop c ss)
drop-Falls zero prev ss f = f
drop-Falls (suc c) prev [] f = tt
drop-Falls (suc c) prev (s ∷ ss) f =
    Falls_later prev s.marginal_q32 (drop c ss) f.1 (drop-Falls c s.marginal_q32 ss f.2)
  where
    Falls_later : (p q : ℕ) (xs : List Segment) → q ≤ p → Falls q xs → Falls p xs
    Falls_later p q [] h g = tt
    Falls_later p q (x ∷ xs) h g = (g.0, omega arith, g.2)

pub total-take-suc :
    (c : ℕ) (s : Segment) (ss : List Segment)
    → get_elem? ss c ≡ some s
    → total (take (suc c) ss) ≡ total (take c ss) + s.input_capacity
unfolding total
total-take-suc c s [] e = cc
total-take-suc zero s (x ∷ ss) e = ground arith
total-take-suc (suc c) s (x ∷ ss) e = omega (arith, total-take-suc c s ss e)

-- At the edge of band `c`: the atoms to come bring at most the rate of the next band.
module _ (c prev : ℕ) (ss : List Segment) (f : Falls prev ss) where
  pub edge_none : get_elem? ss c ≡ none → (k : ℕ) → total (take c ss) ≤ k → rate_at k ss ≡ 0
  unfolding rate_at
  edge_none e k h =
      let d = k - total (take c ss) in
      let p : total (take c ss) + d ≡ k = omega arith in
      rw (← p) (rate_at_left c d ss ∙ ap (rate_at d) (drop-none c ss e))

  pub edge_under :
      (s : Segment)
      → get_elem? ss c ≡ some s
      → (k : ℕ) → total (take c ss) ≤ k
      → rate_at k ss ≤ s.marginal_q32
  unfolding rate_at
  edge_under s e k h =
      let d = k - total (take c ss) in
      let p : total (take c ss) + d ≡ k = omega arith in
      let falls = rw (drop_head c s ss e) at (drop-Falls c prev ss f) in
      rw (← p, rate_at_left c d ss, drop_head c s ss e)
        (rate_at-le d s.marginal_q32 (s ∷ drop (suc c) ss) (falls.0, le_refl _, falls.2))

  pub edge_level :
      (s : Segment)
      → get_elem? ss c ≡ some s
      → (k : ℕ) → k < s.input_capacity
      → rate_at (total (take c ss) + k) ss ≡ s.marginal_q32
  unfolding rate_at
  edge_level s e k h = rw (rate_at_left c k ss, drop_head c s ss e) (ground arith)

pub elem_pos :
    (c prev : ℕ) (s : Segment) (ss : List Segment)
    → Falls prev ss
    → get_elem? ss c ≡ some s
    → 0 < s.input_capacity
elem_pos c prev s [] f e = cc
elem_pos zero prev s (x ∷ ss) f e = ground arith
elem_pos (suc c) prev s (x ∷ ss) f e = elem_pos c x.marginal_q32 s ss f.2 e

pub total-take-le : (c : ℕ) (ss : List Segment) → total (take c ss) ≤ total ss
unfolding total
total-take-le zero ss = omega arith
total-take-le (suc c) [] = omega arith
total-take-le (suc c) (s ∷ ss) = omega (arith, total-take-le c ss)
