-- ===== src/Optimizer/Choice.antt =====
-- engine/stockmesh/optimizer/mod.rs: which lane a round of `waterfill` picks, and what it pours.
use native.Mathlib.Nat.{le_refl}
use xtxc.Common.{
  ℕ, zero, suc, ◌+◌, ◌≤◌, ◌≡◌, refl, ◌⊎◌, inl, inr, Option, none, some, List, [], ◌∷◌, arith, ltb,
  Bool-cases,
}
use xtxc.Common.Outcome.{ok}
use xtxc.Common.Meter.{WorkMeter, charge, >>=-eq-ok}
use xtxc.Compiler.{Segment}
use xtxc.Optimizer.{Lane, head_band, prefer, pick_lane}

unfoldable pub choose : ℕ → List Lane → Option (ℕ × Segment) → Option (ℕ × Segment)
choose i [] best = best
choose i (l ∷ ls) best = choose (suc i) ls (prefer i (head_band l) best)

pub pick_lane-choose :
    (i : ℕ) (ls : List Lane) (best b : Option (ℕ × Segment)) (m : WorkMeter)
    → (pick_lane i ls best m).0 ≡ ok b
    → choose i ls best ≡ b
unfolding pick_lane choose
pick_lane-choose i [] best b m h = ground arith
pick_lane-choose i (l ∷ ls) best b m h =
    let (_, _, h') = >>=-eq-ok (charge 1) _ m b h in
    pick_lane-choose (suc i) ls (prefer i (head_band l) best) b _ h'

-- No band of the option has a higher rate.
abbrev pub RateLe : ℕ → Option Segment → Type 0
RateLe r none = Unit
RateLe r (some s) = s.marginal_q32 ≤ r

abbrev pub Tops : ℕ → List Lane → Type 0
Tops r [] = Unit
Tops r (l ∷ ls) = RateLe r (head_band l) × Tops r ls

-- Lane `i` offers the band `s` next.
abbrev pub Offers : ℕ → Segment → List Lane → Type 0
Offers i s [] = ⊥
Offers zero s (l ∷ ls) = head_band l ≡ some s
Offers (suc i) s (l ∷ ls) = Offers i s ls

abbrev BestLe : ℕ → Option (ℕ × Segment) → Type 0
BestLe r none = Unit
BestLe r (some (j, t)) = t.marginal_q32 ≤ r

-- The pick stands in a lane, or was there before, and no head is above it.
pub record Picked (i : ℕ) (ls : List Lane) (best : Option (ℕ × Segment)) (j : ℕ) (s : Segment)
    : Type 0 where
  pub from : (best ≡ some (j, s)) ⊎ ((k : ℕ) × (j ≡ i + k) × Offers k s ls)
  pub tops : Tops s.marginal_q32 ls
  pub keeps : BestLe s.marginal_q32 best

prefer_cases :
    (i : ℕ) (o : Option Segment) (best : Option (ℕ × Segment)) (j : ℕ) (s : Segment)
    → prefer i o best ≡ some (j, s)
    → (best ≡ some (j, s)) ⊎ ((j ≡ i) × (o ≡ some s))
unfolding prefer
prefer_cases i none best j s h = inl h
prefer_cases i (some x) none j s h = inr (ground arith, ground arith)
prefer_cases i (some x) (some (k, t)) j s h = ground arith

prefer_tops :
    (i : ℕ) (o : Option Segment) (best : Option (ℕ × Segment)) (r : ℕ)
    → BestLe r (prefer i o best)
    → RateLe r o × BestLe r best
unfolding prefer
prefer_tops i none best r h = (tt, h)
prefer_tops i (some x) none r h = (h, tt)
prefer_tops i (some x) (some (k, t)) r h = elim (Bool-cases (ltb t.marginal_q32 x.marginal_q32)) [
  | inl higher ↦ (let p : x.marginal_q32 ≤ r = rw higher at h in p, ground arith)
  | inr lower ↦ let p : t.marginal_q32 ≤ r = rw lower at h in (ground arith, p)
]

pub choose-Picked :
    (i : ℕ) (ls : List Lane) (best : Option (ℕ × Segment)) (j : ℕ) (s : Segment)
    → choose i ls best ≡ some (j, s)
    → Picked i ls best j s
unfolding choose
choose-Picked i [] best j s h = record { from = inl h; tops = tt; keeps = rw h (le_refl _) }
choose-Picked i (l ∷ ls) best j s h =
    let rest = choose-Picked (suc i) ls (prefer i (head_band l) best) j s h in
    let heads = prefer_tops i (head_band l) best s.marginal_q32 rest.keeps in
    record {
      from = elim rest.from [
        | inl before ↦ elim (prefer_cases i (head_band l) best j s before) [
          | inl e ↦ inl e
          | inr (e, o) ↦ inr (0, omega arith, o)
        ]
        | inr (k, e, o) ↦ inr (suc k, omega arith, o)
      ];
      tops = (heads.0, rest.tops);
      keeps = heads.1;
    }

-- Without a pick every lane is used up.
abbrev pub Spent : List Lane → Type 0
Spent [] = Unit
Spent (l ∷ ls) = (head_band l ≡ none) × Spent ls

prefer-none :
    (i : ℕ) (o : Option Segment) (best : Option (ℕ × Segment))
    → prefer i o best ≡ none
    → (o ≡ none) × (best ≡ none)
unfolding prefer
prefer-none i none best h = (refl, h)
prefer-none i (some x) none h = cc
prefer-none i (some x) (some b) h = ground arith

pub choose-Spent :
    (i : ℕ) (ls : List Lane) (best : Option (ℕ × Segment))
    → choose i ls best ≡ none
    → Spent ls × (best ≡ none)
unfolding choose
choose-Spent i [] best h = (tt, h)
choose-Spent i (l ∷ ls) best h =
    let (spent, e) = choose-Spent (suc i) ls (prefer i (head_band l) best) h in
    let (o, b) = prefer-none i (head_band l) best e in ((o, spent), b)
