-- ===== src/Optimizer/Optimal.antt =====
-- engine/stockmesh/optimizer/mod.rs: the allocation of `waterfill` against every other one.
use native.Mathlib.Nat.{mul-le-mul_left}
use xtxc.Common.{
  ℕ, zero, suc, ◌+◌, ◌-◌, ◌*◌, ◌/◌, ◌≤◌, ◌≡◌, refl, ap, ◌∙◌, Bool, true, false, List, [], ◌∷◌, ◌++◌,
  arith, length, replicate, if◌then◌else◌,
}
use xtxc.Common.Outcome
use xtxc.Common.Outcome.{Outcome, ok, Error, scale, as_u64, max_rate, max_edges, reject}
use xtxc.Common.Meter.{WorkMeter, lift, >>=-eq-ok}
use xtxc.Compiler.{Curve, validate}
use xtxc.Compiler.Bands.{area, area-zero, rate_at-le, total}
use xtxc.Compiler.Quote.{bands, IsValid, validate-IsValid}
use xtxc.Optimizer.{
  Lane, Filled, lanes_of, validate_lanes, waterfill, check_waterfill, Allocation, bit, inputs_of,
  max_bands, fill,
}
use xtxc.Optimizer.Price.{Splits-best}
use xtxc.Optimizer.Lanes.{Settled, AllReady, AllSettled}
use xtxc.Optimizer.Waterfill.{sum, worth, frame, fill-Reached}

-- The area under an allocation, over the curves in order.
pub value : List Curve → List ℕ → ℕ
value [] xs = 0
value (c ∷ cs) [] = 0
value (c ∷ cs) (x ∷ xs) = area x (bands c) + value cs xs

-- An amount for each curve, none for a venue whose bit is not set, and none beyond the curves.
abbrev pub Uses : ℕ → ℕ → List Curve → List ℕ → Type 0
Uses mask i [] xs = sum xs ≡ 0
Uses mask i (c ∷ cs) [] = ⊥
Uses mask i (c ∷ cs) (x ∷ xs) = (bit mask i ≡ false → x ≡ 0) × Uses mask (suc i) cs xs

-- Nor more than a venue can take.
abbrev pub Within : List Curve → List ℕ → Type 0
Within [] xs = Unit
Within (c ∷ cs) [] = Unit
Within (c ∷ cs) (x ∷ xs) = (x ≤ total (bands c)) × Within cs xs

-- The lanes stand over the curves, in order, selected by the mask.
abbrev Over : ℕ → ℕ → List Curve → List Lane → Type 0
Over mask i [] [] = Unit
Over mask i [] (l ∷ ls) = ⊥
Over mask i (c ∷ cs) [] = ⊥
Over mask i (c ∷ cs) (l ∷ ls) = (l.curve ≡ c) × (l.selected ≡ bit mask i) × Over mask (suc i) cs ls

Over_lem :
    (mask i : ℕ) (cs : List Curve) (ls : List Lane)
    → frame ls ≡ frame (lanes_of mask i cs)
    → Over mask i cs ls
unfolding lanes_of
Over_lem mask i [] [] e = tt
Over_lem mask i [] (l ∷ ls) e = cc
Over_lem mask i (c ∷ cs) [] e = cc
Over_lem mask i (c ∷ cs) (l ∷ ls) e =
    (ground arith, ground arith, Over_lem mask (suc i) cs ls (ground arith))

pub lanes_of-Ready :
    (mask i : ℕ) (cs : List Curve)
    → validate_lanes (lanes_of mask i cs) ≡ ok tt
    → AllReady max_rate (lanes_of mask i cs)
unfolding lanes_of validate_lanes total
lanes_of-Ready mask i [] h = tt
lanes_of-Ready mask i (c ∷ cs) h =
    let (_, first, rest) = Outcome.>>=-eq-ok (if bit mask i then validate c else ok tt) _ h in
    let valid : bit mask i ≡ true → IsValid c = λ e. validate-IsValid c (ground arith) in
    (
      record {
        settled = record {
          split = λ e. record {
            above = λ k p. absurd (omega arith);
            under = λ k p. rate_at-le k max_rate (bands c) (valid e).falls;
          };
          idle = λ e. refl;
          within = omega arith;
        };
        valid = valid;
        at_edge = refl;
      },
      lanes_of-Ready mask (suc i) cs rest,
    )

lane-best :
    (price x : ℕ) (selected : Bool) (c : Curve) (l : Lane)
    → l.curve ≡ c
    → l.selected ≡ selected
    → Settled price l
    → (selected ≡ false → x ≡ 0)
    → area x (bands c) + price * l.input ≤ area l.input (bands l.curve) + price * x
lane-best price x true c l e b v u =
    rw (← e) (Splits-best price l.input x (bands l.curve) (v.split b))
lane-best price x false c l e b v u =
    let none_in = v.idle b in rw (none_in, u refl) (omega (arith, area-zero (bands c)))

-- At the price of the lanes no other allocation is better.
value-best :
    (price mask i : ℕ) (cs : List Curve) (ls : List Lane) (xs : List ℕ)
    → Over mask i cs ls
    → AllSettled price ls
    → Uses mask i cs xs
    → value cs xs + price * sum (inputs_of ls) ≤ worth ls + price * sum xs
unfolding value worth sum
value-best price mask i [] [] xs o v u = omega arith
value-best price mask i [] (l ∷ ls) xs o v u = absurd o
value-best price mask i (c ∷ cs) [] xs o v u = absurd o
value-best price mask i (c ∷ cs) (l ∷ ls) [] o v u = absurd u
value-best price mask i (c ∷ cs) (l ∷ ls) (x ∷ xs) o v u = omega (
  arith,
  lane-best price x (bit mask i) c l o.0 o.1 v.0 u.0,
  value-best price mask (suc i) cs ls xs o.2 v.1 u.1,
)

-- The inputs of the plan, padded with zeros, are an allocation over the curves.
module _ (zeros : List ℕ) (no_more : sum zeros ≡ 0) where
  plan-value :
      (mask i : ℕ) (cs : List Curve) (ls : List Lane)
      → Over mask i cs ls
      → value cs (inputs_of ls ++ zeros) ≡ worth ls
  unfolding value worth
  plan-value mask i [] [] o = refl
  plan-value mask i [] (l ∷ ls) o = absurd o
  plan-value mask i (c ∷ cs) [] o = absurd o
  plan-value mask i (c ∷ cs) (l ∷ ls) o = rw (o.0, plan-value mask (suc i) cs ls o.2)

  plan-Uses :
      (price mask i : ℕ) (cs : List Curve) (ls : List Lane)
      → Over mask i cs ls
      → AllSettled price ls
      → Uses mask i cs (inputs_of ls ++ zeros)
  plan-Uses price mask i [] [] o v = no_more
  plan-Uses price mask i [] (l ∷ ls) o v = absurd o
  plan-Uses price mask i (c ∷ cs) [] o v = absurd o
  plan-Uses price mask i (c ∷ cs) (l ∷ ls) o v =
      (λ e. v.0.idle (o.1 ∙ e), plan-Uses price mask (suc i) cs ls o.2 v.1)

  plan-Within :
      (price mask i : ℕ) (cs : List Curve) (ls : List Lane)
      → Over mask i cs ls
      → AllSettled price ls
      → Within cs (inputs_of ls ++ zeros)
  plan-Within price mask i [] [] o v = tt
  plan-Within price mask i [] (l ∷ ls) o v = absurd o
  plan-Within price mask i (c ∷ cs) [] o v = absurd o
  plan-Within price mask i (c ∷ cs) (l ∷ ls) o v =
      (rw (← o.0) v.0.within, plan-Within price mask (suc i) cs ls o.2 v.1)

  sum-plan : (ls : List Lane) → sum (inputs_of ls ++ zeros) ≡ sum (inputs_of ls)
  unfolding sum
  sum-plan [] = no_more
  sum-plan (l ∷ ls) = omega (arith, sum-plan ls)

sum-zeros : (n : ℕ) → sum (replicate n 0) ≡ 0
unfolding sum
sum-zeros zero = refl
sum-zeros (suc n) = omega (arith, sum-zeros n)

pub sum-lanes_of :
    (mask i : ℕ) (cs : List Curve)
    → (sum (inputs_of (lanes_of mask i cs)) ≡ 0) × (worth (lanes_of mask i cs) ≡ 0)
unfolding lanes_of sum worth
sum-lanes_of mask i [] = (refl, refl)
sum-lanes_of mask i (c ∷ cs) =
    let ih = sum-lanes_of mask (suc i) cs in
    (omega (arith, ih.0), omega (arith, area-zero (bands c), ih.1))

-- What `waterfill` promises of its plan.
pub record IsOptimal (curves : List Curve) (amount mask : ℕ) (plan : Allocation) : Type 0 where
  pub spends : sum plan.inputs ≡ amount
  pub uses : Uses mask 0 curves plan.inputs
  pub within : Within curves plan.inputs
  pub scored : plan.output ≡ value curves plan.inputs / scale
  pub best :
      (xs : List ℕ)
      → Uses mask 0 curves xs
      → sum xs ≤ amount
      → value curves xs ≤ value curves plan.inputs

-- What is left of `waterfill` after its checks.
record Run (curves : List Curve) (amount mask : ℕ) (plan : Allocation) : Type 0 where
  end : Filled
  meter : WorkMeter
  checked : validate_lanes (lanes_of mask 0 curves) ≡ ok tt
  ran :
      (fill max_bands amount
        (record { lanes = lanes_of mask 0 curves; score = 0; used_mask = 0 })
        meter).0
      ≡ ok end
  inputs : plan.inputs ≡ inputs_of end.lanes ++ replicate (max_edges - length curves) 0
  output : plan.output ≡ end.score / scale

check_waterfill-lanes :
    (curves : List Curve) (amount mask : ℕ)
    → check_waterfill curves amount mask ≡ ok tt
    → validate_lanes (lanes_of mask 0 curves) ≡ ok tt
unfolding check_waterfill
check_waterfill-lanes curves amount mask h = ground arith

waterfill-Run :
    (curves : List Curve) (amount mask : ℕ) (plan : Allocation) (m : WorkMeter)
    → (waterfill curves amount mask m).0 ≡ ok plan
    → Run curves amount mask plan
unfolding waterfill as_u64
waterfill-Run curves amount mask plan m h =
    let (_, checked, h1) = >>=-eq-ok (lift (check_waterfill curves amount mask)) _ m plan h in
    let start : Filled = record { lanes = lanes_of mask 0 curves; score = 0; used_mask = 0 } in
    let (f, ran, h2) = >>=-eq-ok (fill max_bands amount start) _ _ plan h1 in
    let (o, e, h3) = >>=-eq-ok (lift (as_u64 (f.score / scale))) _ _ plan h2 in
    record {
      end = f;
      meter = m;
      checked = check_waterfill-lanes curves amount mask checked;
      ran = ran;
      inputs = ground arith;
      output = ground arith;
    }

-- A plan of `waterfill` spends exactly the amount, over selected venues within their capacities, is
-- scored by the area under its inputs, and no allocation of at most that amount over the selected
-- venues has a larger area.
pub waterfill-IsOptimal :
    (curves : List Curve) (amount mask : ℕ) (plan : Allocation) (m : WorkMeter)
    → (waterfill curves amount mask m).0 ≡ ok plan
    → IsOptimal curves amount mask plan
waterfill-IsOptimal curves amount mask plan m h =
    let r = waterfill-Run curves amount mask plan m h in
    let ready = lanes_of-Ready mask 0 curves r.checked in
    let reached = fill-Reached max_bands amount max_rate _ r.end r.meter ready r.ran in
    let over = Over_lem mask 0 curves r.end.lanes reached.same_frame in
    let zeros = replicate (max_edges - length curves) 0 in
    let none_more = sum-zeros (max_edges - length curves) in
    let (start_sum, start_worth) = sum-lanes_of mask 0 curves in
    let spent : sum (inputs_of r.end.lanes) ≡ amount = omega (arith, reached.sums, start_sum) in
    let worth_score : r.end.score ≡ worth r.end.lanes = omega (arith, reached.gains, start_worth) in
    let same = plan-value zeros none_more mask 0 curves r.end.lanes over in
    record {
      spends = rw r.inputs (sum-plan zeros none_more r.end.lanes ∙ spent);
      uses =
          rw r.inputs (
            plan-Uses zeros none_more reached.price mask 0 curves r.end.lanes over reached.settled);
      within = rw r.inputs (
          plan-Within zeros none_more reached.price mask 0 curves r.end.lanes over reached.settled);
      scored = rw (r.output, r.inputs, same, worth_score);
      best = λ xs u k.
          rw (r.inputs, same)
            (beats reached.price xs spent k
              (value-best reached.price mask 0 curves r.end.lanes xs over reached.settled u));
    }
  where
    beats :
        (price : ℕ) (xs : List ℕ) {w s : ℕ}
        → s ≡ amount
        → sum xs ≤ amount
        → value curves xs + price * s ≤ w + price * sum xs
        → value curves xs ≤ w
    beats price xs e k b = omega (arith, b, mul-le-mul_left price k, ap (λ (t : ℕ). price * t) e)
