-- ===== src/Optimizer/Sound.antt =====
-- engine/stockmesh/optimizer/mod.rs: what a report of the search promises.
use xtxc.Common.{
  ℕ, zero, suc, ◌+◌, ◌-◌, ◌^◌, ◌≡◌, refl, subst, ◌≤◌, inl, inr, ◌⊎◌, arith, true, false, not, ◌||◌,
  none, List, [], ◌∷◌, ltb, ◌==◌, if◌then◌else◌, length, take, All, Bool-cases, bit_and,
}
use xtxc.Common.Outcome.{
  Error, ok, err, reject, bounds, invalid_amount, max_atoms, max_edges, max_legs, Outcome-cases,
  ok-inj,
}
use xtxc.Common.Meter.{WorkMeter, charge, lift, >>=-eq-ok}
use xtxc.Compiler.{Curve, Snapshot}
use xtxc.Optimizer.{Allocation, waterfill}
use xtxc.Optimizer.Optimal.{IsOptimal, waterfill-IsOptimal}
use xtxc.Optimizer.Search.{
  SearchReport, exact_output, independent, query, lower_sum, check_venues, add_errors,
  max_finalists,
}
use xtxc.Optimizer.Subsets.{
  Shortlist, Choice, rank, enlist, repeated, admit_plan, try_mask, try_masks, better_plan,
  choose_best, no_plan, report, search_reference, count_ones,
}

-- A candidate: the allocation of an admissible subset.
pub record Candidate (snapshots : List Snapshot) (curves : List Curve) (amount eligible legs : ℕ)
    (p : Allocation) : Type 0 where
  pub subset : ℕ
  pub filled : Allocation
  pub optimal : IsOptimal curves amount subset filled
  pub same : p.inputs ≡ filled.inputs
  pub apart : independent snapshots subset ≡ true
  pub within : bit_and subset (255 - eligible) ≡ 0
  pub few : count_ones 8 subset ≤ legs

take-All {ℓ κ} : {A : Type ℓ} (P : A → Type κ) (n : ℕ) (xs : List A) → All P xs → All P (take n xs)
take-All P zero xs h = tt
take-All P (suc n) [] h = tt
take-All P (suc n) (x ∷ xs) h = (h.0, take-All P n xs h.1)

module _ (P : Allocation → Type 0) where
  rank-All : (p : Allocation) (fs : List Allocation) → P p → All P fs → All P (rank p fs)
  unfolding rank
  rank-All p [] h hs = (h, tt)
  rank-All p (f ∷ fs) h hs =
      elim (ltb f.output p.output) as (λ b. All P (if b then p ∷ f ∷ fs else f ∷ rank p fs)) [
        | true ↦ (h, hs)
        | false ↦ (hs.0, rank-All p fs h hs.1)
      ]

  enlist-All : (p : Allocation) (fs : List Allocation) → P p → All P fs → All P (enlist p fs)
  unfolding enlist
  enlist-All p fs h hs =
      elim (repeated p fs) as (λ b. All P (if b then fs else take max_finalists (rank p fs))) [
        | true ↦ hs
        | false ↦ take-All P max_finalists (rank p fs) (rank-All p fs h hs)
      ]

query_filled :
    (curves : List Curve) (amount mask : ℕ) (m : WorkMeter) (p : Allocation)
    → (query curves amount mask true m).0 ≡ ok p
    → (f : Allocation) × IsOptimal curves amount mask f × (p.inputs ≡ f.inputs)
unfolding query
query_filled curves amount mask m p h =
    let (f, e, h2) = >>=-eq-ok (waterfill curves amount mask) _ m p h in
    let (out, _, h3) = >>=-eq-ok (lift (lower_sum curves f.inputs 0)) _ _ p h2 in
    (f, waterfill-IsOptimal curves amount mask f m e, ground arith)

passed_over :
    (x : Error) (s s' : Shortlist)
    → admit_plan (record s { masks_considered = s.masks_considered + 1 }) (err x) ≡ ok s'
    → s.finalists ≡ s'.finalists
passed_over x s s' h = ground arith

module _ (snapshots : List Snapshot) (curves : List Curve) (amount eligible legs : ℕ) where
  abbrev Cand : Allocation → Type 0
  Cand = Candidate snapshots curves amount eligible legs

  try_mask-All :
      (mask : ℕ) (s s' : Shortlist) (m : WorkMeter)
      → All Cand s.finalists
      → (try_mask snapshots curves amount eligible legs mask s m).0 ≡ ok s'
      → All Cand s'.finalists
  unfolding try_mask
  try_mask-All mask s s' m v h =
      elim (Bool-cases (not (bit_and mask (255 - eligible) == 0) || ltb legs (count_ones 8 mask))) [
        | inl skip ↦
            let same : s ≡ s' = ground arith in
            subst (λ (s : Shortlist). All Cand s.finalists) same v
        | inr pass ↦ elim (Bool-cases (independent snapshots mask)) [
          | inr clash ↦
              let same : s.finalists ≡ s'.finalists = ground arith in subst (All Cand) same v
          | inl free ↦ elim (Outcome-cases (query curves amount mask true m).0) [
            | inl (p, e) ↦
                let (f, best, same) = query_filled curves amount mask m p e in
                let shape : enlist p s.finalists ≡ s'.finalists = ground arith in
                subst (All Cand) shape (
                  enlist-All Cand p s.finalists
                    (record {
                      subset = mask;
                      filled = f;
                      optimal = best;
                      same = same;
                      apart = free;
                      within = ground arith;
                      few = ground arith;
                    })
                    v)
            | inr (inl (x, e)) ↦
                let shape : s.finalists ≡ s'.finalists = passed_over x s s' (ground arith) in
                subst (All Cand) shape v
            | inr (inr e) ↦ ground arith
          ]
        ]
      ]

  try_masks-All :
      (count mask : ℕ) (s s' : Shortlist) (m : WorkMeter)
      → All Cand s.finalists
      → (try_masks snapshots curves amount eligible legs count mask s m).0 ≡ ok s'
      → All Cand s'.finalists
  unfolding try_masks
  try_masks-All zero mask s s' m v h = subst (λ (s : Shortlist). All Cand s.finalists) (ok-inj h) v
  try_masks-All (suc count) mask s s' m v h =
      let (_, _, h2) = >>=-eq-ok (charge 1) _ m s' h in
      let (t, e, h3) =
        >>=-eq-ok (try_mask snapshots curves amount eligible legs mask s) _ _ s' h2 in
      try_masks-All count (suc mask) t s' _ (try_mask-All mask s t _ v e) h3

  -- The best plan so far: a candidate, scored by its exact output.
  pub record Chosen (best : Allocation) : Type 0 where
    pub candidate : Allocation
    pub source : Cand candidate
    pub inputs : best.inputs ≡ candidate.inputs
    pub exact : exact_output snapshots candidate ≡ ok best.output

  abbrev Scored : Choice → Type 0
  Scored c = (c.best ≡ no_plan) ⊎ Chosen c.best

  better_plan-Scored :
      (p : Allocation) (exact : ℕ) (c : Choice)
      → Cand p
      → exact_output snapshots p ≡ ok exact
      → Scored c
      → Scored (better_plan p exact c)
  unfolding better_plan
  better_plan-Scored p exact c v e sc =
      elim (c.best.mask == 0 || ltb c.best.output exact)
        as (λ b.
          ((if b then record p { output = exact } else c.best) ≡ no_plan)
          ⊎ Chosen (if b then record p { output = exact } else c.best)) [
            | true ↦ inr (record { candidate = p; source = v; inputs = refl; exact = e })
            | false ↦ sc
          ]

  choose_best-Scored :
      (ps : List Allocation) (c c' : Choice) (m : WorkMeter)
      → All Cand ps
      → Scored c
      → (choose_best snapshots ps c m).0 ≡ ok c'
      → Scored c'
  unfolding choose_best
  choose_best-Scored [] c c' m v sc h = subst Scored (ok-inj h) sc
  choose_best-Scored (p ∷ ps) c c' m v sc h =
      let (_, _, h2) = >>=-eq-ok (charge (length snapshots)) _ m c' h in
      let (exact, e, h3) = >>=-eq-ok (lift (exact_output snapshots p)) _ _ c' h2 in
      choose_best-Scored ps (better_plan p exact c) c' _ v.1 (better_plan-Scored p exact c v.0 e sc)
        h3

  -- What a report promises: its plan is that of no subset, or one with the inputs of a candidate
  -- and their exact output, and the certificate bounds it.
  pub record Certified (r : SearchReport) : Type 0 where
    pub plan : (r.plan ≡ no_plan) ⊎ Chosen r.plan
    pub achieved : r.certificate.achieved_output ≡ r.plan.output
    pub gap : r.certificate.achieved_output + r.certificate.gap_atoms ≡ r.certificate.upper_output

  report-Certified :
      (upper : ℕ) (s : Shortlist) (c : Choice) (r : SearchReport)
      → Scored c
      → report upper s c ≡ ok r
      → Certified r
  unfolding report
  report-Certified upper s c r sc h =
      let same : c.best ≡ r.plan = ground arith in
      record {
        plan = subst (λ p. (p ≡ no_plan) ⊎ Chosen p) same sc;
        achieved = ground arith;
        gap = ground arith;
      }

  -- The plan of a report has the inputs of an optimal allocation over an independent subset of the
  -- eligible venues within the leg limit, scored by their exact output, or is the empty plan; and
  -- the certificate's gap is what the upper bound leaves above that output.
  pub search_reference-Certified :
      (m : WorkMeter) (r : SearchReport)
      → (search_reference snapshots curves amount eligible legs m).0 ≡ ok r
      → Certified r
  unfolding search_reference
  search_reference-Certified m r h =
      let (_, _, h2) =
        >>=-eq-ok
          (lift (
            reject
              (not (length snapshots == length curves)
                || length snapshots == 0
                || ltb max_edges (length snapshots)
                || legs == 0
                || ltb max_legs legs)
              bounds))
          _ m r h in
      let (_, _, h3) =
        >>=-eq-ok (lift (reject (amount == 0 || ltb max_atoms amount) invalid_amount)) _ _ r h2 in
      let (_, _, h4) =
        >>=-eq-ok (lift (check_venues eligible 0 [] none snapshots curves)) _ _ r h3 in
      let (relaxed, _, h5) = >>=-eq-ok (query curves amount eligible false) _ _ r h4 in
      let (upper, _, h6) =
        >>=-eq-ok (lift (add_errors eligible 0 curves relaxed.output)) _ _ r h5 in
      let (s, tried, h7) =
        >>=-eq-ok
          (try_masks snapshots curves amount eligible legs (2 ^ length curves - 1) 1
            (record { finalists = []; masks_considered = 0; feasible_allocations = 0 }))
          _ _ r h6 in
      let (_, _, h8) =
        >>=-eq-ok (lift (reject (length s.finalists == 0) Error.capacity)) _ _ r h7 in
      let (c, chosen, h9) =
        >>=-eq-ok (choose_best snapshots s.finalists (record { best = no_plan; simulations = 0 })) _
          _ r h8 in
      report-Certified upper s c r
        (choose_best-Scored s.finalists (record { best = no_plan; simulations = 0 }) c _
          (try_masks-All (2 ^ length curves - 1) 1
            (record { finalists = []; masks_considered = 0; feasible_allocations = 0 }) s _ tt
            tried)
          (inl refl) chosen)
        h9
