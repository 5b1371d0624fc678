-- ===== src/Optimizer/Lanes.antt =====
-- engine/stockmesh/optimizer/mod.rs: one lane of `waterfill`, and how a round moves it.
use native.Mathlib.Nat.{le_refl, le_trans}
use native.Mathlib.Numerals.{add-one}
use mathlib.Core.Bool.{false≢true}
use xtxc.Common.{
  ℕ, suc, ◌+◌, ◌-◌, ◌*◌, ◌≤◌, ◌<◌, ◌≡◌, sym, ◌∙◌, inl, inr, true, false, some, List, [], ◌∷◌, arith,
  ltb, Bool-cases, Option-cases, get_elem?, take,
}
use xtxc.Compiler.{Segment}
use xtxc.Compiler.Bands.{area, total, rate_at}
use xtxc.Compiler.Quote.{bands, IsValid}
use xtxc.Optimizer.{Lane, head_band}
use xtxc.Optimizer.Price.{
  Splits, edge_none, edge_under, edge_level, total-take-suc, area_levels, elem_pos, total-take-le,
}
use xtxc.Optimizer.Choice.{RateLe}

-- A lane is separated by the price; one that is not selected holds nothing.
pub record Settled (price : ℕ) (l : Lane) : Type 0 where
  pub split : l.selected ≡ true → Splits price l.input (bands l.curve)
  pub idle : l.selected ≡ false → l.input ≡ 0
  pub within : l.input ≤ total (bands l.curve)

-- Between the rounds a lane holds whole bands.
pub record Ready (price : ℕ) (l : Lane) : Type 0 where
  pub settled : Settled price l
  pub valid : l.selected ≡ true → IsValid l.curve
  pub at_edge : l.input ≡ total (take l.cursor (bands l.curve))

abbrev pub AllReady : ℕ → List Lane → Type 0
AllReady price [] = Unit
AllReady price (l ∷ ls) = Ready price l × AllReady price ls

abbrev pub AllSettled : ℕ → List Lane → Type 0
AllSettled price [] = Unit
AllSettled price (l ∷ ls) = Settled price l × AllSettled price ls

pub head_band-eq : (l : Lane) → l.selected ≡ true → head_band l ≡ get_elem? (bands l.curve) l.cursor
unfolding head_band
head_band-eq l e = rw e

-- Nothing that is left in the lane brings more than `r`.
left_under :
    (r price : ℕ) (l : Lane)
    → Ready price l
    → RateLe r (head_band l)
    → l.selected ≡ true
    → (k : ℕ) → l.input ≤ k
    → rate_at k (bands l.curve) ≤ r
left_under r price l v h e k p =
    let f = (v.valid e).falls in
    let start : total (take l.cursor (bands l.curve)) ≤ k = rw v.at_edge at p in
    elim (Option-cases (get_elem? (bands l.curve) l.cursor)) [
      | inl gone ↦ omega (arith, edge_none l.cursor _ (bands l.curve) f gone k start)
      | inr (s, next) ↦
          let top : s.marginal_q32 ≤ r = rw (head_band-eq l e, next) at h in
          le_trans (edge_under l.cursor _ (bands l.curve) f s next k start) top
    ]

-- A lane that is passed over is separated by the lower price of the pick too.
pub relax :
    (r price : ℕ) (l : Lane) → Ready price l → r ≤ price → RateLe r (head_band l) → Ready r l
relax r price l v lower h = record {
  settled = record {
    split = λ e. record {
      above = λ k p. le_trans lower ((v.settled.split e).above k p);
      under = left_under r price l v h e;
    };
    idle = v.settled.idle;
    within = v.settled.within;
  };
  valid = v.valid;
  at_edge = v.at_edge;
}

-- The lane after `plan.inputs[i] += take; cursor[i] += 1`.
abbrev pub after : Lane → ℕ → Lane
after l atoms = record l { cursor = l.cursor + 1; input = l.input + atoms }

-- A lane that offers a band of rate `r` is selected, and stands below the price.
pub record Offering (price : ℕ) (s : Segment) (l : Lane) : Type 0 where
  pub chosen : l.selected ≡ true
  pub next : get_elem? (bands l.curve) l.cursor ≡ some s
  pub level :
      (k : ℕ) → k < s.input_capacity → rate_at (l.input + k) (bands l.curve) ≡ s.marginal_q32
  pub lower : s.marginal_q32 ≤ price

pub head_band-selected : (l : Lane) (s : Segment) → head_band l ≡ some s → l.selected ≡ true
unfolding head_band
head_band-selected l s h = ground arith

pub offering :
    (price : ℕ) (s : Segment) (l : Lane) → Ready price l → head_band l ≡ some s → Offering price s l
offering price s l v h =
    let chosen = head_band-selected l s h in
    let next : get_elem? (bands l.curve) l.cursor ≡ some s = sym (head_band-eq l chosen) ∙ h in
    let f = (v.valid chosen).falls in
    let level : (k : ℕ)
        → k < s.input_capacity
        → rate_at (l.input + k) (bands l.curve) ≡ s.marginal_q32 =
      rw v.at_edge (edge_level l.cursor _ (bands l.curve) f s next) in
    let first = level 0 (elem_pos l.cursor _ s (bands l.curve) f next) in
    record {
      chosen = chosen;
      next = next;
      level = level;
      lower = omega (arith, (v.settled.split chosen).under (l.input + 0) (omega arith));
    }

module _ (price atoms : ℕ) (s : Segment) (l : Lane) (v : Ready price l) (h : head_band l ≡ some s)
    (fits : atoms ≤ s.input_capacity) where
  after-above : (k : ℕ) → k < l.input + atoms → s.marginal_q32 ≤ rate_at k (bands l.curve)
  after-above k p =
      let o = offering price s l v h in
      elim (Bool-cases (ltb k l.input)) [
        | inl before ↦ le_trans o.lower ((v.settled.split o.chosen).above k (ground arith))
        | inr within ↦
            let e : l.input + (k - l.input) ≡ k = ground arith in
            let rate = o.level (k - l.input) (ground arith) in omega (arith, (rw e at rate))
      ]

  pub after-Settled : Settled s.marginal_q32 (after l atoms)
  after-Settled =
      let o = offering price s l v h in
      record {
        split = λ e. record {
          above = after-above;
          under = λ k p. left_under s.marginal_q32 price l v (rw h (le_refl _)) e k (omega arith);
        };
        idle = λ e. absurd (false≢true (sym e ∙ o.chosen));
        within = omega (
          arith,
          v.at_edge,
          total-take-suc l.cursor s (bands l.curve) o.next,
          total-take-le (suc l.cursor) (bands l.curve),
        );
      }

  pub after-Ready : atoms ≡ s.input_capacity → Ready s.marginal_q32 (after l atoms)
  after-Ready e =
      let o = offering price s l v h in
      let step = total-take-suc l.cursor s (bands l.curve) o.next in
      record {
        settled = after-Settled;
        valid = v.valid;
        at_edge = simp add-one (omega (arith, v.at_edge, step));
      }

  pub after-area :
      area (l.input + atoms) (bands l.curve) ≡ area l.input (bands l.curve) + s.marginal_q32 * atoms
  after-area =
      let o = offering price s l v h in
      area_levels s.marginal_q32 l.input atoms (bands l.curve) (λ k p. o.level k (omega arith))
