-- ===== src/Optimizer/Progress.antt =====
-- engine/stockmesh/optimizer/mod.rs: the loop of `waterfill` places all that is left, while the lanes hold
-- enough and the budget allows.
use native.Mathlib.Nat.{le_trans, mul-le-mul_left}
use native.Mathlib.Numerals.{add-one}
use xtxc.Common.{
  ℕ, zero, suc, ◌+◌, ◌-◌, ◌*◌, ◌≤◌, ◌<◌, ◌^◌, min, bit_or, ◌≡◌, refl, sym, ap, ◌∙◌, List, [], ◌∷◌,
  arith, Bool-cases, Option-cases, inl, inr, length, drop, Option, none, some, if◌then◌else◌, ◌==◌,
  leb,
}
use xtxc.Common.Outcome.{ok, max_rate, max_atoms, u32_mod, u64_mod, u128_mod}
use xtxc.Common.Meter
use xtxc.Common.Meter.{WorkMeter, lift, charge}
use xtxc.Compiler.{Segment}
use xtxc.Compiler.Bands.{area, area-zero, area-le, total}
use xtxc.Compiler.Quote.{bands}
use xtxc.Optimizer.{Lane, Filled, head_band, prefer, pick_lane, pour, fill, round, inputs_of}
use xtxc.Optimizer.Price.{drop_head, drop-none}
use xtxc.Optimizer.Choice.{choose, Spent, choose-Spent, choose-Picked, Offers}
use xtxc.Optimizer.Lanes.{AllReady, head_band-eq, head_band-selected}
use xtxc.Optimizer.Waterfill.{sum, worth, Poured, pour-Poured, pick-Offers, Offers-lower}

unfoldable pub spend : WorkMeter → ℕ → WorkMeter
spend m units = record m { used = m.used + units }

pick_lane_runs :
    (i : ℕ) (ls : List Lane) (best : Option (ℕ × Segment)) (m : WorkMeter)
    → m.used + length ls ≤ m.limit
    → m.limit < u32_mod
    → pick_lane i ls best m ≡ (ok (choose i ls best), spend m (length ls))
unfolding pick_lane choose charge spend
pick_lane_runs i [] best m h k = ground arith
pick_lane_runs i (l ∷ ls) best m h k =
    ground (arith, pick_lane_runs (suc i) ls (prefer i (head_band l) best) (spend m 1))

-- The bands that a lane has left, their number and what they hold.
unfoldable pub left_of : Lane → List Segment
left_of l = if l.selected then drop l.cursor (bands l.curve) else []

unfoldable pub bands_left : List Lane → ℕ
bands_left [] = 0
bands_left (l ∷ ls) = length (left_of l) + bands_left ls

unfoldable pub capacity_left : List Lane → ℕ
capacity_left [] = 0
capacity_left (l ∷ ls) = total (left_of l) + capacity_left ls

left_of-none : (l : Lane) → head_band l ≡ none → left_of l ≡ []
unfolding left_of
left_of-none l h = elim (Bool-cases l.selected) [
  | inl e ↦ rw e (drop-none l.cursor (bands l.curve) (sym (head_band-eq l e) ∙ h))
  | inr e ↦ rw e
]

left_of-some :
    (l : Lane) (s : Segment) (atoms : ℕ)
    → head_band l ≡ some s
    → left_of l ≡ s ∷ left_of (record l { cursor = l.cursor + 1; input = l.input + atoms })
unfolding left_of
left_of-some l s atoms h =
    let e = head_band-selected l s h in
    rw e (simp add-one (drop_head l.cursor s (bands l.curve) (sym (head_band-eq l e) ∙ h)))

Spent-capacity : (ls : List Lane) → Spent ls → capacity_left ls ≡ 0
unfolding capacity_left total
Spent-capacity [] h = refl
Spent-capacity (l ∷ ls) h = rw (left_of-none l h.0) (omega (arith, Spent-capacity ls h.1))

total-zero : (ss : List Segment) → length ss ≡ 0 → total ss ≡ 0
unfolding total
total-zero [] h = refl
total-zero (s ∷ ss) h = absurd (omega arith)

no_bands_left : (ls : List Lane) → bands_left ls ≡ 0 → capacity_left ls ≡ 0
unfolding bands_left capacity_left
no_bands_left [] h = refl
no_bands_left (l ∷ ls) h =
    omega (arith, total-zero (left_of l) (omega arith), no_bands_left ls (omega arith))

-- A pour into a lane that offers a band goes through and uses the band up.
record PouredTo (s : Segment) (i atoms : ℕ) (ls : List Lane) : Type 0 where
  lanes : List Lane
  pours : pour i atoms ls ≡ ok lanes
  fewer : bands_left lanes + 1 ≡ bands_left ls
  less : capacity_left lanes + s.input_capacity ≡ capacity_left ls
  as_many : length lanes ≡ length ls

pour_runs :
    (i atoms : ℕ) (s : Segment) (ls : List Lane)
    → Offers i s ls
    → sum (inputs_of ls) + atoms < u64_mod
    → PouredTo s i atoms ls
unfolding pour bands_left capacity_left sum total
pour_runs i atoms s [] o h = absurd o
pour_runs zero atoms s (l ∷ ls) o h =
    let e = left_of-some l s atoms o in
    record {
      lanes = record l { cursor = l.cursor + 1; input = l.input + atoms } ∷ ls;
      pours = ground arith;
      fewer = omega (arith, ap length e);
      less = omega (arith, ap total e);
      as_many = refl;
    }
pour_runs (suc i) atoms s (l ∷ ls) o h =
    let rest = pour_runs i atoms s ls o (omega arith) in
    record {
      lanes = l ∷ rest.lanes;
      pours = ground (arith, rest.pours);
      fewer = omega (arith, rest.fewer);
      less = omega (arith, rest.less);
      as_many = omega (arith, rest.as_many);
    }

worth-le :
    (price : ℕ) (ls : List Lane) → AllReady price ls → worth ls ≤ sum (inputs_of ls) * max_rate
unfolding worth sum
worth-le price [] v = omega arith
worth-le price (l ∷ ls) v = omega (arith, lane_worth, worth-le price ls v.1)
  where
    lane_worth : area l.input (bands l.curve) ≤ l.input * max_rate
    lane_worth = elim (Bool-cases l.selected) [
      | inl e ↦ area-le l.input max_rate (bands l.curve) (v.0.valid e).falls
      | inr e ↦ rw (v.0.settled.idle e) (omega (arith, area-zero (bands l.curve)))
    ]

-- What the loop needs to go on with `remaining` atoms and `fuel` rounds.
pub record Able (fuel remaining price : ℕ) (f : Filled) (m : WorkMeter) : Type 0 where
  pub ready : AllReady price f.lanes
  pub room : remaining ≤ capacity_left f.lanes
  pub rounds : bands_left f.lanes ≤ fuel
  pub small : sum (inputs_of f.lanes) + remaining ≤ max_atoms
  pub scored : f.score ≡ worth f.lanes
  pub budget : m.used + fuel * length f.lanes ≤ m.limit
  pub limit : m.limit < u32_mod
  pub price_le : price ≤ max_rate

unfoldable pub Fills : ℕ → ℕ → Filled → WorkMeter → Type 0
Fills fuel remaining f m =
    (f' : Filled) × ((fill fuel remaining f m).0 ≡ ok f') × (f'.score ≤ max_atoms * max_rate)

fill-zero_runs :
    (fuel : ℕ) (f : Filled) (m : WorkMeter) → f.score ≤ max_atoms * max_rate → Fills fuel 0 f m
unfolding fill Fills
fill-zero_runs zero f m h = (f, refl, h)
fill-zero_runs (suc fuel) f m h = (f, refl, h)

round_runs :
    (next : ℕ → Filled → Meter.Metered Filled) (remaining : ℕ) (f : Filled) (m : WorkMeter) (i : ℕ)
    (s : Segment) (ls : List Lane)
    → m.used + length f.lanes ≤ m.limit
    → m.limit < u32_mod
    → choose 0 f.lanes none ≡ some (i, s)
    → pour i (min remaining s.input_capacity) f.lanes ≡ ok ls
    → f.score + min remaining s.input_capacity * s.marginal_q32 < u128_mod
    → round next remaining f m
      ≡ next
          (remaining - min remaining s.input_capacity)
          (record {
            lanes = ls;
            score = f.score + min remaining s.input_capacity * s.marginal_q32;
            used_mask = bit_or f.used_mask (2 ^ i);
          })
          (spend m (length f.lanes))
unfolding round
round_runs next remaining f m i s ls h k picked poured small =
    rw (pick_lane_runs 0 f.lanes none m h k, picked, poured) (ground arith)

module _ (fuel remaining price : ℕ) (f : Filled) (m : WorkMeter)
    (a : Able (suc fuel) remaining price f m)
    (ih : (left p : ℕ) (g : Filled) (m' : WorkMeter)
      → Able fuel left p g m'
      → Fills fuel left g m') where
  Rounds : Type 0
  Rounds =
      (f' : Filled) × ((round (fill fuel) remaining f m).0 ≡ ok f')
      × (f'.score ≤ max_atoms * max_rate)

  -- With something left to place some lane offers a band.
  must_pick : 0 < remaining → choose 0 f.lanes none ≡ none → Rounds
  must_pick h e =
      let spent = (choose-Spent 0 f.lanes none e).0 in
      absurd (omega (arith, Spent-capacity f.lanes spent, a.room))

  module _ (i : ℕ) (s : Segment) (e : choose 0 f.lanes none ≡ some (i, s)) where
    abbrev atoms : ℕ
    atoms = min remaining s.input_capacity

    abbrev next_meter : WorkMeter
    next_meter = spend m (length f.lanes)

    offers : Offers i s f.lanes
    offers = pick-Offers f.lanes (choose-Picked 0 f.lanes none i s e).from

    rate_le : s.marginal_q32 ≤ max_rate
    rate_le = le_trans (Offers-lower i price s f.lanes a.ready offers) a.price_le

    target : PouredTo s i atoms f.lanes
    target = pour_runs i atoms s f.lanes offers (omega (arith, a.small))

    poured : Poured s atoms f.lanes target.lanes
    poured =
        pour-Poured i price atoms s f.lanes target.lanes a.ready offers
          (choose-Picked 0 f.lanes none i s e).tops (omega arith) target.pours

    abbrev between : Filled
    between = record {
      lanes = target.lanes;
      score = f.score + atoms * s.marginal_q32;
      used_mask = bit_or f.used_mask (2 ^ i);
    }

    score_fits : f.score + atoms * s.marginal_q32 ≤ max_atoms * max_rate
    score_fits =
        omega
          (arith, a.scored, a.small, worth-le price f.lanes a.ready, mul-le-mul_left atoms rate_le)

    whole_Able :
        s.input_capacity ≤ remaining
        → Able fuel (remaining - atoms) s.marginal_q32 between next_meter
    unfolding spend
    whole_Able h = record {
      ready = poured.ready (omega arith);
      room = omega (arith, target.less, a.room);
      rounds = omega (arith, target.fewer, a.rounds);
      small = omega (arith, poured.sums, a.small);
      scored = omega (arith, poured.gains, a.scored);
      budget = rw target.as_many (omega (arith, a.budget));
      limit = a.limit;
      price_le = rate_le;
    }

    goes_on : Fills fuel (remaining - atoms) between next_meter
    goes_on = elim (Bool-cases (leb s.input_capacity remaining)) [
      | inl whole ↦
          ih (remaining - atoms) s.marginal_q32 between next_meter (whole_Able (ground arith))
      | inr part ↦
          let none_left : remaining - atoms ≡ 0 = ground arith in
          rw none_left (fill-zero_runs fuel between next_meter score_fits)
    ]

    round_goes_on : Rounds
    unfolding Fills Rounds
    round_goes_on =
        let first : m.used + length f.lanes ≤ m.limit = omega (arith, a.budget) in
        rw
          (round_runs (fill fuel) remaining f m i s target.lanes first a.limit e target.pours
            (omega (arith, score_fits)))
          goes_on

  any_round : 0 < remaining → Rounds
  any_round h = elim (Option-cases (choose 0 f.lanes none)) [
    | inl e ↦ must_pick h e
    | inr ((i, s), e) ↦ round_goes_on i s e
  ]

start_score :
    (price : ℕ) (f : Filled) (m : WorkMeter) (fuel remaining : ℕ)
    → Able fuel remaining price f m
    → f.score ≤ max_atoms * max_rate
start_score price f m fuel remaining a =
    omega (arith, a.scored, a.small, worth-le price f.lanes a.ready)

pub fill_runs :
    (fuel remaining price : ℕ) (f : Filled) (m : WorkMeter)
    → Able fuel remaining price f m
    → Fills fuel remaining f m
unfolding fill Fills Rounds
fill_runs zero remaining price f m a =
    let e : remaining ≡ 0 =
      omega (arith, a.room, no_bands_left f.lanes (omega (arith, a.rounds))) in
    (f, rw e, start_score price f m zero remaining a)
fill_runs (suc fuel) remaining price f m a = elim (Bool-cases (remaining == 0)) [
  | inl none_left ↦ (f, rw none_left, start_score price f m (suc fuel) remaining a)
  | inr more ↦ rw more (
      any_round fuel remaining price f m a (λ left p g m' a'. fill_runs fuel left p g m' a')
        (ground arith))
]
