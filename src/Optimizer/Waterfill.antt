-- ===== src/Optimizer/Waterfill.antt =====
-- engine/stockmesh/optimizer/mod.rs: `waterfill` finds the best allocation of the amount over the
-- selected curves.
use xtxc.Common.{
  bit_or, ◌^◌, ℕ, zero, suc, ◌+◌, ◌-◌, ◌*◌, ◌≤◌, min, ◌≡◌, refl, subst, leb, ◌∙◌, ◌⊎◌, inl, inr,
  Bool, Option, none, some, List, [], ◌∷◌, arith, ◌==◌, Bool-cases, map,
}
use xtxc.Common.Outcome.{
  Outcome, ok, panic, add_word, u64_mod, u128_mod, ok_or, Error, scale, as_u64,
}
use xtxc.Common.Outcome
use xtxc.Common.Meter
use xtxc.Common.Meter.{WorkMeter, Metered, pure, charge, >>=-eq-ok, lift}
use xtxc.Compiler.{Segment, Curve}
use xtxc.Compiler.Bands.{area}
use xtxc.Compiler.Quote.{bands}
use xtxc.Optimizer.{Lane, pick_lane, pour, fill, Filled, round, inputs_of}
use xtxc.Optimizer.Choice.{choose, pick_lane-choose, Tops, Offers, choose-Picked}
use xtxc.Optimizer.Lanes.{
  AllReady, AllSettled, relax, after, offering, after-Settled, after-Ready, after-area,
}

unfoldable pub sum : List ℕ → ℕ
sum [] = 0
sum (x ∷ xs) = x + sum xs

-- The areas under the inputs of the lanes, together.
unfoldable pub worth : List Lane → ℕ
worth [] = 0
worth (l ∷ ls) = area l.input (bands l.curve) + worth ls

-- What a round leaves alone.
abbrev pub frame : List Lane → List (Curve × Bool)
frame = map λ l. (l.curve, l.selected)

pub AllReady-AllSettled : (price : ℕ) (ls : List Lane) → AllReady price ls → AllSettled price ls
AllReady-AllSettled price [] v = tt
AllReady-AllSettled price (l ∷ ls) v = (v.0.settled, AllReady-AllSettled price ls v.1)

relax_all :
    (r price : ℕ) (ls : List Lane) → AllReady price ls → r ≤ price → Tops r ls → AllReady r ls
relax_all r price [] v h t = tt
relax_all r price (l ∷ ls) v h t = (relax r price l v.0 h t.0, relax_all r price ls v.1 h t.1)

pub Offers-lower :
    (i price : ℕ) (s : Segment) (ls : List Lane)
    → AllReady price ls
    → Offers i s ls
    → s.marginal_q32 ≤ price
Offers-lower i price s [] v o = absurd o
Offers-lower zero price s (l ∷ ls) v o = (offering price s l v.0 o).lower
Offers-lower (suc i) price s (l ∷ ls) v o = Offers-lower i price s ls v.1 o

-- What pouring `atoms` of the band `s` into lane `i` gives.
pub record Poured (s : Segment) (atoms : ℕ) (ls ls' : List Lane) : Type 0 where
  pub settled : AllSettled s.marginal_q32 ls'
  pub ready : atoms ≡ s.input_capacity → AllReady s.marginal_q32 ls'
  pub sums : sum (inputs_of ls') ≡ sum (inputs_of ls) + atoms
  pub gains : worth ls' ≡ worth ls + atoms * s.marginal_q32
  pub same_frame : frame ls' ≡ frame ls

pub pour-Poured :
    (i price atoms : ℕ) (s : Segment) (ls ls' : List Lane)
    → AllReady price ls
    → Offers i s ls
    → Tops s.marginal_q32 ls
    → atoms ≤ s.input_capacity
    → pour i atoms ls ≡ ok ls'
    → Poured s atoms ls ls'
unfolding pour sum worth
pour-Poured i price atoms s [] ls' v o t fits h = absurd o
pour-Poured zero price atoms s (l ∷ ls) ls' v o t fits h =
    let e : ls' ≡ after l atoms ∷ ls = ground arith in
    let lower = (offering price s l v.0 o).lower in
    let rest = relax_all s.marginal_q32 price ls v.1 lower t.1 in
    rw e (record {
      settled = (after-Settled price atoms s l v.0 o fits, AllReady-AllSettled _ ls rest);
      ready = λ full. (after-Ready price atoms s l v.0 o fits full, rest);
      sums = omega arith;
      gains = omega (arith, after-area price atoms s l v.0 o fits);
      same_frame = refl;
    })
pour-Poured (suc i) price atoms s (l ∷ ls) ls' v o t fits h =
    let (ls'', poured, e') = Outcome.>>=-eq-ok (pour i atoms ls) _ h in
    let e : ls' ≡ l ∷ ls'' = ground arith in
    let rest = pour-Poured i price atoms s ls ls'' v.1 o t.1 fits poured in
    let here = relax s.marginal_q32 price l v.0 (Offers-lower i price s ls v.1 o) t.0 in
    rw e (record {
      settled = (here.settled, rest.settled);
      ready = λ full. (here, rest.ready full);
      sums = omega (arith, rest.sums);
      gains = omega (arith, rest.gains);
      same_frame = rw rest.same_frame;
    })

pub pick-Offers :
    (ls : List Lane) {j : ℕ} {s : Segment}
    → (◌≡◌ {A = Option (ℕ × Segment)} none (some (j, s))) ⊎ ((k : ℕ) × (j ≡ 0 + k) × Offers k s ls)
    → Offers j s ls
pick-Offers ls (inl e) = cc
pick-Offers ls {j} {s} (inr (k, e, o)) =
    let e' : k ≡ j = omega arith in subst (λ i. Offers i s ls) e' o

-- A round that went through.
record Round (next : ℕ → Filled → Metered Filled) (remaining : ℕ) (f f' : Filled) : Type 0 where
  lane : ℕ
  band : Segment
  poured_lanes : List Lane
  meter : WorkMeter
  picks : choose 0 f.lanes none ≡ some (lane, band)
  pours : pour lane (min remaining band.input_capacity) f.lanes ≡ ok poured_lanes
  goes_on :
      (next
        (remaining - min remaining band.input_capacity)
        (record {
          lanes = poured_lanes;
          score = f.score + min remaining band.input_capacity * band.marginal_q32;
          used_mask = bit_or f.used_mask (2 ^ lane);
        })
        meter).0
      ≡ ok f'

round-Round :
    (next : ℕ → Filled → Metered Filled) (remaining : ℕ) (f f' : Filled) (m : WorkMeter)
    → (round next remaining f m).0 ≡ ok f'
    → Round next remaining f f'
unfolding round
round-Round next remaining f f' m h =
    let (best, picked, h1) = >>=-eq-ok (pick_lane 0 f.lanes none) _ m f' h in go best picked h1
  where
    after_pick : Option (ℕ × Segment) → Metered Filled
    after_pick best = Meter.◌>>=◌ (lift (ok_or best Error.capacity)) λ (i, s).
        Meter.◌>>=◌ (lift (pour i (min remaining s.input_capacity) f.lanes)) λ lanes.
          Meter.◌>>=◌
            (lift (add_word u128_mod f.score (min remaining s.input_capacity * s.marginal_q32)))
            λ score.
              next (remaining - min remaining s.input_capacity)
                (record { lanes = lanes; score = score; used_mask = bit_or f.used_mask (2 ^ i) })

    finish :
        (i : ℕ) (s : Segment) (ls : List Lane) (m' : WorkMeter) (score : ℕ)
        → choose 0 f.lanes none ≡ some (i, s)
        → pour i (min remaining s.input_capacity) f.lanes ≡ ok ls
        → add_word u128_mod f.score (min remaining s.input_capacity * s.marginal_q32) ≡ ok score
        → (next
            (remaining - min remaining s.input_capacity)
            (record { lanes = ls; score = score; used_mask = bit_or f.used_mask (2 ^ i) })
            m').0
          ≡ ok f'
        → Round next remaining f f'
    finish i s ls m' score e p a g =
        let e' : score ≡ f.score + min remaining s.input_capacity * s.marginal_q32 = ground arith in
        record {
          lane = i;
          band = s;
          poured_lanes = ls;
          meter = m';
          picks = e;
          pours = p;
          goes_on = rw e' at g;
        }

    go :
        (best : Option (ℕ × Segment))
        → (pick_lane 0 f.lanes none m).0 ≡ ok best
        → (after_pick best (pick_lane 0 f.lanes none m).1).0 ≡ ok f'
        → Round next remaining f f'
    go none p g = cc
    go (some (i, s)) p g =
        let (ls, poured, g') =
          >>=-eq-ok (lift (pour i (min remaining s.input_capacity) f.lanes)) _ _ f' g in
        let (score, added, g'') =
          >>=-eq-ok
            (lift (add_word u128_mod f.score (min remaining s.input_capacity * s.marginal_q32))) _ _
            f' g' in
        finish i s ls _ score (pick_lane-choose 0 f.lanes none _ m p) poured added g''

-- What the loop reaches from `f` with `remaining` atoms to place.
pub record Reached (remaining : ℕ) (f f' : Filled) : Type 0 where
  pub price : ℕ
  pub settled : AllSettled price f'.lanes
  pub sums : sum (inputs_of f'.lanes) ≡ sum (inputs_of f.lanes) + remaining
  pub gains : f'.score + worth f.lanes ≡ f.score + worth f'.lanes
  pub same_frame : frame f'.lanes ≡ frame f.lanes

done :
    (remaining price : ℕ) (f f' : Filled)
    → AllReady price f.lanes
    → remaining ≡ 0
    → f' ≡ f
    → Reached remaining f f'
done remaining price f f' v zero_left e =
    rw (e, zero_left)
      (record {
        price = price;
        settled = AllReady-AllSettled price f.lanes v;
        sums = omega arith;
        gains = omega arith;
        same_frame = refl;
      })

pub fill-zero : (fuel : ℕ) (f f' : Filled) (m : WorkMeter) → (fill fuel 0 f m).0 ≡ ok f' → f' ≡ f
unfolding fill
fill-zero zero f f' m h = ground arith
fill-zero (suc fuel) f f' m h = ground arith

module _ (fuel remaining price : ℕ) (f f' : Filled) (v : AllReady price f.lanes)
    (r : Round (fill fuel) remaining f f')
    (ih : (left p : ℕ) (g : Filled) (m : WorkMeter)
      → AllReady p g.lanes
      → (fill fuel left g m).0 ≡ ok f'
      → Reached left g f') where
  abbrev atoms : ℕ
  atoms = min remaining r.band.input_capacity

  abbrev between : Filled
  between = record {
    lanes = r.poured_lanes;
    score = f.score + atoms * r.band.marginal_q32;
    used_mask = bit_or f.used_mask (2 ^ r.lane);
  }

  poured : Poured r.band atoms f.lanes r.poured_lanes
  poured =
      let picked = choose-Picked 0 f.lanes none r.lane r.band r.picks in
      pour-Poured r.lane price atoms r.band f.lanes r.poured_lanes v
        (pick-Offers f.lanes picked.from) picked.tops (omega arith) r.pours

  join : Reached (remaining - atoms) between f' → Reached remaining f f'
  join rest = record {
    price = rest.price;
    settled = rest.settled;
    sums = omega (arith, rest.sums, poured.sums);
    gains = omega (arith, rest.gains, poured.gains);
    same_frame = rest.same_frame ∙ poured.same_frame;
  }

  fill_step : Reached remaining f f'
  fill_step = elim (Bool-cases (leb r.band.input_capacity remaining)) [
    | inl whole ↦ join (
        ih (remaining - atoms) r.band.marginal_q32 between r.meter (poured.ready (ground arith))
          r.goes_on)
    | inr part ↦
        let none_left : remaining - atoms ≡ 0 = ground arith in
        let same : f' ≡ between = fill-zero fuel between f' r.meter (rw none_left at r.goes_on) in
        join (
          rw (same, none_left)
            (record {
              price = r.band.marginal_q32;
              settled = poured.settled;
              sums = omega arith;
              gains = omega arith;
              same_frame = refl;
            }))
  ]

pub fill-Reached :
    (fuel remaining price : ℕ) (f f' : Filled) (m : WorkMeter)
    → AllReady price f.lanes
    → (fill fuel remaining f m).0 ≡ ok f'
    → Reached remaining f f'
unfolding fill
fill-Reached zero remaining price f f' m v h =
    done remaining price f f' v (ground arith) (ground arith)
fill-Reached (suc fuel) remaining price f f' m v h = elim (Bool-cases (remaining == 0)) [
  | inl none_left ↦ done remaining price f f' v (ground arith) (ground arith)
  | inr more ↦
      fill_step fuel remaining price f f' v
        (round-Round (fill fuel) remaining f f' m (rw more at h))
        (λ left p g m' v' h'. fill-Reached fuel left p g f' m' v' h')
]
