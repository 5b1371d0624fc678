-- ===== src/Optimizer/Oracle/Refined.antt =====
-- engine/stockmesh/optimizer/oracle.rs: what `refine_bounded_legs` promises of its plan.
use xtxc.Common.{
  ℕ, zero, suc, ◌-◌, ◌/◌, ◌^◌, ◌≡◌, refl, ◌≤◌, ◌<◌, max, Bool, false, arith, ltb, ◌==◌, ◌||◌, inl,
  inr, not, subst, ◌≢◌, if◌then◌else◌,
}
use xtxc.Common.Outcome.{
  Outcome, ok, err, panic, reject, bounds, work_limit, Error, max_edges, max_legs, max_atoms,
}
use xtxc.Common.Meter.{WorkMeter, Metered, lift, new, ◌>>=◌}
use xtxc.Common.Ends.{
  Ends, Ending, Within, >>=-Ends, >>=-Ending, reject-Ending, kept_by_reject, either_way,
}
use xtxc.Optimizer.Oracle.{Oracle, ExactPlan, empty_plan, seed_masks}
use xtxc.Optimizer.Oracle.Refine.{
  refine_bounded_legs, refine_metered, refine_from, refine_loop, close_plan, check_request,
}
use xtxc.Optimizer.Oracle.Priced.{Priced}
use xtxc.Optimizer.Oracle.Sound.{relabel, refine_loop-Kept}
use xtxc.Optimizer.Oracle.Seeds.{Started, seed_masks-Started}

-- A plan within all limits, which gets something and has counted its calls.
pub record Refined (oracle : Oracle) (edges amount limit cost_limit legs : ℕ) (p : ExactPlan)
    : Type 0 where
  pub priced : Priced oracle edges amount cost_limit legs p
  pub gains : 0 < p.output
  pub counted : p.oracle_calls ≤ limit

pow_pos : (n : ℕ) → 0 < 2 ^ n
pow_pos zero = omega arith
pow_pos (suc n) = omega (arith, pow_pos n)

-- The checks of a request.
record Admitted (edges amount legs : ℕ) : Type 0 where
  venues : edges ≤ max_edges
  asked : 0 < amount
  atoms : amount ≤ max_atoms

module _ (oracle : Oracle) (edges amount cost_limit legs : ℕ) (abort : Type 0) (limit : ℕ)
    (aborts : (i x : ℕ) → oracle i x ≡ panic → abort) where
  check_request-Admitted :
      Ending abort
        (λ (u : Unit {0}). Admitted edges amount legs)
        (check_request oracle edges cost_limit legs amount)
  unfolding check_request
  check_request-Admitted =
      let asked : Bool = edges == 0 || ltb max_edges edges || amount == 0 || ltb max_atoms amount in
      let led : Bool = legs == 0 || ltb max_legs legs in
      >>=-Ending abort (λ u. asked ≡ false) (λ u. Admitted edges amount legs) (reject asked bounds)
        (λ u. reject led bounds) (reject-Ending abort asked bounds)
        λ u e.
          kept_by_reject abort (Admitted edges amount legs) led bounds
            (record { venues = ground arith; asked = ground arith; atoms = ground arith })

  refine_from-Refined :
      (best : ExactPlan) (m : WorkMeter)
      → Admitted edges amount legs
      → Started oracle edges amount cost_limit legs best
      → Within limit m
      → Ends abort limit
          (Refined oracle edges amount limit cost_limit legs)
          (refine_from oracle edges cost_limit legs amount best m)
  unfolding refine_from close_plan
  refine_from-Refined best m adm v w =
      let small = adm.atoms in
      let step : ℕ = max (amount / 2) 1 in
      let loop : Metered ExactPlan = refine_loop oracle edges cost_limit legs 64 step best in
      let Q : Outcome ExactPlan × WorkMeter → Type 0 =
        Ends abort limit (Refined oracle edges amount limit cost_limit legs) in
      either_way Q (best.output == 0)
        (err (if m.used == m.limit then work_limit else Error.capacity), m)
        ((loop >>= close_plan oracle edges cost_limit legs) m) (λ e. (w, tt))
        λ e. elim v [
          | inl nothing ↦ absurd (ground arith)
          | inr priced ↦
              >>=-Ends abort limit _ _ loop (close_plan oracle edges cost_limit legs) m
                (refine_loop-Kept oracle edges amount cost_limit legs adm.venues abort limit aborts
                  64 step best best m (omega arith) (omega arith) (priced, omega arith) w)
                λ p m2 k w2. (
                  w2,
                  record {
                    priced =
                        (relabel oracle edges amount cost_limit legs adm.venues abort limit aborts
                          best p m2.used p.final_step (not (p.final_step == 0)) k).0;
                    gains = let better = k.1 in ground arith;
                    counted = w2.1;
                  },
                )
        ]

  pub refine_metered-Refined :
      Ends abort limit
        (Refined oracle edges amount limit cost_limit legs)
        (refine_metered oracle edges cost_limit legs amount (new limit))
  unfolding refine_metered new
  refine_metered-Refined =
      let seeds : ExactPlan → Metered ExactPlan =
        seed_masks oracle edges amount cost_limit legs (2 ^ edges - 1) 1 in
      let R : ExactPlan → Type 0 = Refined oracle edges amount limit cost_limit legs in
      >>=-Ends abort limit (λ u. Admitted edges amount legs) R
        (lift (check_request oracle edges cost_limit legs amount))
        (λ u. seeds empty_plan >>= refine_from oracle edges cost_limit legs amount) (new limit)
        ((refl, omega arith), check_request-Admitted)
        λ u m adm w.
          >>=-Ends abort limit (Started oracle edges amount cost_limit legs) R (seeds empty_plan)
            (refine_from oracle edges cost_limit legs amount) m
            (seed_masks-Started oracle edges amount cost_limit legs adm.venues abort limit aborts
              (2 ^ edges - 1) 1 empty_plan m (omega arith) (let k = pow_pos edges in omega arith)
              (inl refl) w)
            λ best m2 v w2. refine_from-Refined best m2 adm v w2

-- A plan of `refine_bounded_legs` spends exactly the amount, on at most `legs` of the first `edges`
-- venues. The output and the cost of each venue are what the oracle quotes for its input, their sums
-- are the plan's output and cost, the output is positive, the cost is within the limit, and so is the
-- number of calls of the oracle.
pub refine_bounded_legs-Refined :
    (edges amount limit cost_limit legs : ℕ) (oracle : Oracle) (p : ExactPlan)
    → refine_bounded_legs edges amount limit cost_limit legs oracle ≡ ok p
    → Refined oracle edges amount limit cost_limit legs p
unfolding refine_bounded_legs
refine_bounded_legs-Refined edges amount limit cost_limit legs oracle p h =
    subst (Ending (Unit {0}) (Refined oracle edges amount limit cost_limit legs)) h
      (refine_metered-Refined oracle edges amount cost_limit legs (Unit {0}) limit (λ i x e. tt)).1

-- With an oracle that does not abort, `refine_bounded_legs` ends in a plan or an error: its loops end,
-- and no subtraction or division of it aborts.
pub refine_bounded_legs_total :
    (edges amount limit cost_limit legs : ℕ) (oracle : Oracle)
    → ((i x : ℕ) → oracle i x ≢ panic)
    → refine_bounded_legs edges amount limit cost_limit legs oracle ≢ panic
unfolding refine_bounded_legs
refine_bounded_legs_total edges amount limit cost_limit legs oracle runs h =
    subst (Ending ⊥ (Refined oracle edges amount limit cost_limit legs)) h
      (refine_metered-Refined oracle edges amount cost_limit legs ⊥ limit runs).1
