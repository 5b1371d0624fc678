-- ===== src/Optimizer/Oracle/Sound.antt =====
-- engine/stockmesh/optimizer/oracle.rs: the exchanges keep a plan priced and never lower its output.
use xtxc.Common.{
  ℕ, zero, suc, ◌+◌, ◌-◌, ◌/◌, ◌^◌, ◌≡◌, refl, ◌≤◌, ◌<◌, min, Bool, true, false, arith, ltb, Option,
  ◌==◌, ◌&&◌, ◌||◌, get_or,
}
use xtxc.Common.Outcome.{Outcome, ok, err, panic, checked_add, arithmetic, u64_mod, max_edges}
use xtxc.Common.Meter.{WorkMeter, Metered, lift, pure}
use xtxc.Common.Ends.{
  Ends, Ending, Within, >>=-Ends, either_way, either_branch, either_option, IfSome,
}
use xtxc.Optimizer.Oracle.{Oracle, ExactPlan, quote, attempt, caught}
use xtxc.Optimizer.Oracle.Refine.{
  Refining, exchange, funded, propose, try_exchange, scan_to, scan_from, improve, refine_loop,
}
use xtxc.Optimizer.Oracle.Arrays.{one_if}
use xtxc.Optimizer.Oracle.Priced.{Priced, answer, propose-Priced}

module _ (oracle : Oracle) (abort : Type 0) (limit : ℕ)
    (aborts : (i x : ℕ) → oracle i x ≡ panic → abort) where
  caught-answer :
      (i x : ℕ) (r : Outcome (ℕ × ℕ))
      → oracle i x ≡ r
      → (x == 0) ≡ false
      → Ending abort (IfSome λ q. answer oracle i x ≡ ok q) (caught r)
  caught-answer i x (ok q) e n = ground arith
  caught-answer i x (err f) e n = tt
  caught-answer i x panic e n = aborts i x e

  pub attempt_quote :
      (i x : ℕ) (m : WorkMeter)
      → Within limit m
      → Ends abort limit (IfSome λ q. answer oracle i x ≡ ok q) (attempt (quote oracle i x) m)
  unfolding quote
  attempt_quote i x m w =
      let Fine : Outcome (ℕ × ℕ) × WorkMeter → Type 0 =
        λ r. Ends abort limit (IfSome λ q. answer oracle i x ≡ ok q) (caught r.0, r.1) in
      either_branch Fine (x == 0) _ _ (λ e. (w, ground arith))
        λ e.
          either_branch Fine (m.used == m.limit) _ _ (λ full. (w, tt))
            λ room. ((w.0, ground arith), caught-answer i x (oracle i x) refl e)

module _ (oracle : Oracle) (edges amount cost_limit legs : ℕ) (edges_fit : edges ≤ max_edges)
    (abort : Type 0) (limit : ℕ) (aborts : (i x : ℕ) → oracle i x ≡ panic → abort) where
  abbrev Good : ExactPlan → Type 0
  Good = Priced oracle edges amount cost_limit legs

  -- A priced plan that brings no less.
  abbrev pub Kept : ExactPlan → ExactPlan → Type 0
  Kept base p = Good p × (base.output ≤ p.output)

  abbrev Finds : ExactPlan → Outcome (Option ExactPlan) × WorkMeter → Type 0
  Finds base r = Ends abort limit (IfSome (Kept base)) r

  module _ (best : ExactPlan) (good : Good best) (from to taken : ℕ) (from_fits : from < edges)
      (to_fits : to < edges) (apart : (from == to) ≡ false)
      (enough : taken ≤ get_or best.inputs from 0)
      (few : funded best.inputs
          + one_if (get_or best.inputs from 0 - taken)
          + one_if (get_or best.inputs to 0 + taken)
        ≤ legs + one_if (get_or best.inputs from 0) + one_if (get_or best.inputs to 0)) where
    exchange-Kept :
        (next : ExactPlan) (m : WorkMeter)
        → Kept best next
        → Within limit m
        → Finds best (exchange oracle edges cost_limit legs best from to taken next m)
    unfolding exchange
    exchange-Kept next m kept w =
        >>=-Ends abort limit (λ b. b ≡ get_or best.inputs to 0 + taken) (IfSome (Kept best))
          (lift (checked_add u64_mod (get_or best.inputs to 0) taken arithmetic)) _ m
          (w, ground arith)
          λ b m2 b_eq w2.
            >>=-Ends abort limit
              (IfSome λ q. answer oracle from (get_or best.inputs from 0 - taken) ≡ ok q)
              (IfSome (Kept best)) (attempt (quote oracle from (get_or best.inputs from 0 - taken)))
              _ m2 (attempt_quote oracle abort limit aborts from _ m2 w2)
              λ qa m3 ha w3.
                >>=-Ends abort limit (IfSome λ q. answer oracle to b ≡ ok q) (IfSome (Kept best))
                  (attempt (quote oracle to b)) _ m3
                  (attempt_quote oracle abort limit aborts to b m3 w3)
                  λ qb m4 hb w4.
                    either_option _ (λ (c : Metered (Option ExactPlan)). Finds best (c m4)) qa _ _
                      ha (w4, kept)
                      λ a a_eq.
                        either_option _ (λ (c : Metered (Option ExactPlan)). Finds best (c m4)) qb _
                          _ hb (w4, kept)
                          λ c c_eq.
                            >>=-Ends abort limit (λ p. Good p × (next.output ≤ p.output))
                              (IfSome (Kept best))
                              (lift (
                                propose cost_limit best from to (get_or best.inputs from 0 - taken)
                                  b a c next))
                              _ m4
                              (
                                w4,
                                propose-Priced oracle edges amount cost_limit legs from to _ b a c
                                    apart from_fits to_fits edges_fit a_eq c_eq abort best next good
                                    kept.0 (omega arith) (rw b_eq few),
                              )
                              λ p m5 h w5. (w5, (h.0, omega (arith, kept.1, h.1)))

  module _ (step : ℕ) (best : ExactPlan) (good : Good best) (from : ℕ) (from_fits : from < edges)
      (in_use : (get_or best.inputs from 0 == 0) ≡ false) where
    try_exchange-Kept :
        (to : ℕ) (next : ExactPlan) (m : WorkMeter)
        → to < edges
        → Kept best next
        → Within limit m
        → Finds best (try_exchange oracle edges cost_limit legs step best from to next m)
    unfolding try_exchange
    try_exchange-Kept to next m to_fits kept w =
        let f = good.few in
        let barred : Bool =
          from == to
          || (get_or best.inputs to 0 == 0
              && ltb (min (get_or best.inputs from 0) step) (get_or best.inputs from 0)
              && funded best.inputs == legs) in
        either_way (Finds best) _ _ _ (λ e. (w, kept))
          λ (e : barred ≡ false).
            either_way (Finds best) _ _ _ (λ e. (w, tt))
              λ used.
                exchange-Kept best good from to (min (get_or best.inputs from 0) step) from_fits
                  to_fits (ground arith) (omega arith) (ground arith) next m kept w

    scan_to-Kept :
        (count to : ℕ) (next : ExactPlan) (m : WorkMeter)
        → to + count ≡ edges
        → Kept best next
        → Within limit m
        → Finds best (scan_to oracle edges cost_limit legs step best from count to next m)
    unfolding scan_to
    scan_to-Kept zero to next m e kept w = (w, kept)
    scan_to-Kept (suc count) to next m e kept w =
        >>=-Ends abort limit (IfSome (Kept best)) (IfSome (Kept best))
          (try_exchange oracle edges cost_limit legs step best from to next) _ m
          (try_exchange-Kept to next m (omega arith) kept w)
          λ found m2 h w2.
            either_option _ (λ (c : Metered (Option ExactPlan)). Finds best (c m2)) found _ _ h
              (w2, tt) λ p k. scan_to-Kept count (suc to) p m2 (omega arith) k w2

  module _ (step : ℕ) (best : ExactPlan) (good : Good best) where
    scan_from-Kept :
        (count from : ℕ) (next : ExactPlan) (m : WorkMeter)
        → from + count ≡ edges
        → Kept best next
        → Within limit m
        → Finds best (scan_from oracle edges cost_limit legs step best count from next m)
    unfolding scan_from
    scan_from-Kept zero from next m e kept w = (w, kept)
    scan_from-Kept (suc count) from next m e kept w =
        either_way (λ (c : Metered (Option ExactPlan)). Finds best (c m)) _ _ _
          (λ d. scan_from-Kept count (suc from) next m (omega arith) kept w)
          λ d.
            >>=-Ends abort limit (IfSome (Kept best)) (IfSome (Kept best))
              (scan_to oracle edges cost_limit legs step best from edges 0 next) _ m
              (scan_to-Kept step best good from (omega arith) d edges 0 next m (omega arith) kept w)
              λ found m2 h w2.
                either_option _ (λ (c : Metered (Option ExactPlan)). Finds best (c m2)) found _ _ h
                  (w2, tt) λ p k. scan_from-Kept count (suc from) p m2 (omega arith) k w2

  improve-Kept :
      (step rounds : ℕ) (base best : ExactPlan) (m : WorkMeter)
      → Kept base best
      → Within limit m
      → Ends abort limit
          (λ r. Kept base r.plan)
          (improve oracle edges cost_limit legs step rounds best m)
  unfolding improve
  improve-Kept step zero base best m k w = (w, k)
  improve-Kept step (suc rounds) base best m k w =
      let stay : Refining = record { plan = best; stopped = false } in
      >>=-Ends abort limit (IfSome (Kept best)) _
        (scan_from oracle edges cost_limit legs step best edges 0 best) _ m
        (scan_from-Kept step best k.0 edges 0 best m (omega arith) (k.0, omega arith) w)
        λ found m2 h w2.
          either_option _
            (λ (c : Metered Refining). Ends abort limit (λ r. Kept base r.plan) (c m2)) found _ _ h
            (w2, k)
            λ p kp.
              either_way (λ (c : Metered Refining). Ends abort limit (λ r. Kept base r.plan) (c m2))
                (p.output == best.output) (pure stay)
                (improve oracle edges cost_limit legs step rounds p) (λ e. (w2, k))
                λ e. improve-Kept step rounds base p m2 (kp.0, omega (arith, k.1, kp.1)) w2

  -- A change of the fields that are no quotes.
  pub relabel :
      (base p : ExactPlan) (calls final_step : ℕ) (exhausted : Bool)
      → Kept base p
      → Kept base
          (record p { oracle_calls = calls; final_step = final_step; exhausted = exhausted })
  relabel base p calls final_step exhausted k = (
    record {
      quoted = record {
        inputs_fit = k.0.quoted.inputs_fit;
        outputs_fit = k.0.quoted.outputs_fit;
        costs_fit = k.0.quoted.costs_fit;
        output_total = k.0.quoted.output_total;
        cost_total = k.0.quoted.cost_total;
        quotes = k.0.quoted.quotes;
      };
      spent = k.0.spent;
      affordable = k.0.affordable;
      few = k.0.few;
      outside = k.0.outside;
    },
    k.1,
  )

  -- Fuel of which the step is below the power of two.
  pub refine_loop-Kept :
      (fuel step : ℕ) (base best : ExactPlan) (m : WorkMeter)
      → 0 < step
      → step < 2 ^ fuel
      → Kept base best
      → Within limit m
      → Ends abort limit (Kept base) (refine_loop oracle edges cost_limit legs fuel step best m)
  unfolding refine_loop
  refine_loop-Kept zero step base best m pos small k w = absurd (omega arith)
  refine_loop-Kept (suc fuel) step base best m pos small k w =
      >>=-Ends abort limit (λ (r : Refining). Kept base r.plan) (Kept base)
        (improve oracle edges cost_limit legs step 32 (record best { final_step = step })) _ m
        (improve-Kept step 32 base _ m (relabel base best best.oracle_calls step best.exhausted k)
          w)
        λ r m2 h w2.
          let finest : ExactPlan = record r.plan { final_step = 0 } in
          let finer : Metered ExactPlan =
            refine_loop oracle edges cost_limit legs fuel (step / 2) r.plan in
          either_way (λ (c : Metered ExactPlan). Ends abort limit (Kept base) (c m2)) r.stopped
            (pure r.plan) (elim (step == 1) [ true ↦ pure finest | false ↦ finer ]) (λ e. (w2, h))
            λ e.
              either_way (λ (c : Metered ExactPlan). Ends abort limit (Kept base) (c m2))
                (step == 1) (pure finest) finer
                (λ last. (w2, relabel base r.plan r.plan.oracle_calls 0 r.plan.exhausted h))
                λ last.
                  refine_loop-Kept fuel (step / 2) base r.plan m2 (ground arith) (ground arith) h w2
