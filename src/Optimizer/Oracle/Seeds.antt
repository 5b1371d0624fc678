-- ===== src/Optimizer/Oracle/Seeds.antt =====
-- engine/stockmesh/optimizer/oracle.rs: the seeds are priced plans.
use native.Mathlib.Nat.{div-div-eq-div-mul, div-le_self}
use xtxc.Common.{
  ℕ, zero, suc, ◌+◌, ◌-◌, ◌/◌, ◌%◌, ◌^◌, ◌≡◌, refl, sym, ap, subst, ◌≤◌, ◌<◌, ◌∙◌, true, false,
  arith, ltb, leb, Option, none, some, ◌==◌, ◌||◌, if◌then◌else◌, get_or, inl, inr, ◌⊎◌, Bool-cases,
  ==_iff,
}
use xtxc.Common.Outcome.{Outcome, ok, panic, div_word, checked_add, arithmetic, u64_mod, max_edges}
use xtxc.Common.Meter.{WorkMeter, Metered, lift}
use xtxc.Common.Ends.{
  Ends, Ending, Within, >>=-Ends, >>=-Ending, either_way, either_branch, either_option, IfSome,
}
use xtxc.Optimizer.{bit}
use xtxc.Optimizer.Subsets.{count_ones}
use xtxc.Optimizer.Waterfill.{sum}
use xtxc.Optimizer.Oracle.{
  Oracle, ExactPlan, Seeding, empty_plan, quote, attempt, put_quote, seed_edges, seed_masks,
  better_seed,
}
use xtxc.Optimizer.Oracle.Refine.{funded}
use xtxc.Optimizer.Oracle.Arrays.{length-set, get_or-set, sum-set, funded-set, get_or-replicate}
use xtxc.Optimizer.Oracle.Priced.{Quoted, Priced, answer}
use xtxc.Optimizer.Oracle.Sound.{attempt_quote}

-- The ones of a mask from bit `i` on.
pub count_ones_step :
    (count i mask : ℕ)
    → count_ones (suc count) (mask / 2 ^ i)
      ≡ (if bit mask i then 1 else 0) + count_ones count (mask / 2 ^ suc i)
unfolding count_ones
count_ones_step count i mask =
    let halved : mask / 2 ^ i / 2 ≡ mask / 2 ^ suc i =
      div-div-eq-div-mul mask (2 ^ i) 2 ∙ ap (λ n. mask / n) (omega arith) in
    let same = ap (count_ones count) halved in ground arith

pub count_ones-zero : (n : ℕ) → count_ones n 0 ≡ 0
unfolding count_ones
count_ones-zero zero = refl
count_ones-zero (suc n) = omega (arith, count_ones-zero n)

-- The bits of a mask below a power of two are its low ones.
pub count_ones_low : (n k mask : ℕ) → mask < 2 ^ n → n ≤ k → count_ones k mask ≡ count_ones n mask
unfolding count_ones
count_ones_low zero k mask h l = ap (count_ones k) (omega arith) ∙ count_ones-zero k
count_ones_low (suc n) zero mask h l = absurd (omega arith)
count_ones_low (suc n) (suc k) mask h l =
    omega (arith, count_ones_low n k (mask / 2) (omega arith) (omega arith))

pub count_ones-pos : (n mask : ℕ) → mask < 2 ^ n → 0 < mask → 0 < count_ones n mask
unfolding count_ones
count_ones-pos zero mask h p = absurd (omega arith)
count_ones-pos (suc n) mask h p = elim (Bool-cases (mask % 2 == 0)) [
  | inl e ↦
      let even : mask % 2 ≡ 0 = (==_iff _ _).0 e in
      omega (arith, count_ones-pos n (mask / 2) (omega arith) (omega arith))
  | inr e ↦ ground arith
]

div_facts : (a b x : ℕ) → div_word a b ≡ ok x → (0 < b) × (x ≤ a) × (b ≡ 1 → x ≡ a)
div_facts a b x h = elim (Bool-cases (b == 0)) [
  | inl e ↦ absurd (ground arith)
  | inr e ↦
      let q : a / b ≡ x = ground arith in
      let pos : 0 < b = ground arith in
      (
        pos,
        subst (λ n. n ≤ a) q (div-le_self a b),
        λ one. sym q ∙ ap (λ n. a / n) one ∙ omega arith,
      )
]

div_runs :
    (abort : Type 0) (a b : ℕ) → 0 < b → Ending abort (λ x. div_word a b ≡ ok x) (div_word a b)
div_runs abort a b h =
    let e : div_word a b ≡ ok (a / b) = ground arith in
    subst (λ r. Ending abort (λ x. div_word a b ≡ ok x) r) (sym e) e

-- A candidate with `count` venues to go from venue `i` on.
record Sown (oracle : Oracle) (amount total mask i count : ℕ) (s : Seeding) : Type 0 where
  quoted : Quoted oracle s.candidate
  spent : sum s.candidate.inputs + s.left ≡ amount
  counted : s.remaining ≡ count_ones count (mask / 2 ^ i)
  used_up : s.remaining ≡ 0 → s.left ≡ 0
  few : funded s.candidate.inputs + s.remaining ≤ total
  ahead : (j : ℕ) → i ≤ j → get_or s.candidate.inputs j 0 ≡ 0

module _ (oracle : Oracle) (abort : Type 0) (limit : ℕ)
    (aborts : (i x : ℕ) → oracle i x ≡ panic → abort) (amount total mask : ℕ) where
  sow :
      (i count : ℕ) (s : Seeding) (input : ℕ) (q : ℕ × ℕ)
      → i < max_edges
      → Sown oracle amount total mask i (suc count) s
      → bit mask i ≡ true
      → div_word s.left s.remaining ≡ ok input
      → answer oracle i input ≡ ok q
      → Ending abort
          (λ p.
            Sown oracle amount total mask
              (suc i)
              count
              (record { candidate = p; left = s.left - input; remaining = s.remaining - 1 }))
          (put_quote s.candidate i input q)
  unfolding put_quote
  sow i count s input q fits v b d a =
      >>=-Ending abort (λ cost. cost ≡ s.candidate.cost + q.1) _
        (checked_add u64_mod s.candidate.cost q.1 arithmetic) _ (ground arith)
        λ cost cost_eq.
          >>=-Ending abort (λ output. output ≡ s.candidate.output + q.0) _
            (checked_add u64_mod s.candidate.output q.0 arithmetic) _ (ground arith)
            λ output output_eq.
              let inputs_fit = v.quoted.inputs_fit in
              let outputs_fit = v.quoted.outputs_fit in
              let costs_fit = v.quoted.costs_fit in
              let zero_in = v.ahead i (omega arith) in
              let before = v.quoted.quotes i in
              let zero_out : get_or s.candidate.outputs i 0 ≡ 0 = ground arith in
              let zero_cost : get_or s.candidate.costs i 0 ≡ 0 = ground arith in
              let ones = count_ones_step count i mask in
              let (pos, less, whole) = div_facts s.left s.remaining input d in
              record {
                quoted = record {
                  inputs_fit = length-set s.candidate.inputs i input ∙ inputs_fit;
                  outputs_fit = length-set s.candidate.outputs i q.0 ∙ outputs_fit;
                  costs_fit = length-set s.candidate.costs i q.1 ∙ costs_fit;
                  output_total =
                      let k = v.quoted.output_total in
                      omega (arith, sum-set s.candidate.outputs i q.0 (omega arith));
                  cost_total =
                      let k = v.quoted.cost_total in
                      omega (arith, sum-set s.candidate.costs i q.1 (omega arith));
                  quotes = λ j.
                      let g = get_or-set s.candidate.inputs i input j (omega arith) in
                      let g2 = get_or-set s.candidate.outputs i q.0 j (omega arith) in
                      let g3 = get_or-set s.candidate.costs i q.1 j (omega arith) in
                      rw g (rw g2 (rw g3 (ground (arith, v.quoted.quotes j))));
                };
                spent =
                    let k = v.spent in
                    omega (arith, sum-set s.candidate.inputs i input (omega arith));
                counted = let k = v.counted in ground arith;
                used_up = λ e. omega (arith, whole (omega arith));
                few =
                    let k = v.few in
                    let g = funded-set s.candidate.inputs i input (omega arith) in ground arith;
                ahead = λ j h.
                    let g = get_or-set s.candidate.inputs i input j (omega arith) in
                    rw g (ground (arith, v.ahead j (omega arith)));
              }

  pass_over :
      (i count : ℕ) (s : Seeding)
      → Sown oracle amount total mask i (suc count) s
      → bit mask i ≡ false
      → Sown oracle amount total mask (suc i) count s
  pass_over i count s v b = record {
    quoted = v.quoted;
    spent = v.spent;
    counted = let k = v.counted in let ones = count_ones_step count i mask in ground arith;
    used_up = v.used_up;
    few = v.few;
    ahead = λ j h. v.ahead j (omega arith);
  }

  seed_edges-Sown :
      (count i : ℕ) (s : Seeding) (m : WorkMeter)
      → i + count ≤ max_edges
      → Sown oracle amount total mask i count s
      → Within limit m
      → Ends abort limit
          (IfSome (Sown oracle amount total mask (i + count) 0))
          (seed_edges oracle count i mask s m)
  unfolding seed_edges
  seed_edges-Sown zero i s m fits v w =
      (w, subst (λ k. Sown oracle amount total mask k 0 s) (omega arith) v)
  seed_edges-Sown (suc count) i s m fits v w =
      let Q : Option Seeding → Type 0 = IfSome (Sown oracle amount total mask (i + suc count) 0) in
      let same : suc i + count ≡ i + suc count = omega arith in
      either_way (λ (c : Metered (Option Seeding)). Ends abort limit Q (c m)) (bit mask i) _
        (seed_edges oracle count (suc i) mask s)
        (λ b.
          >>=-Ends abort limit (λ input. div_word s.left s.remaining ≡ ok input) Q
            (lift (div_word s.left s.remaining)) _ m
            (
              w,
              div_runs abort s.left s.remaining
                  (let k = v.counted in let ones = count_ones_step count i mask in ground arith),
            )
            λ input m2 d w2.
              >>=-Ends abort limit (IfSome λ q. answer oracle i input ≡ ok q) Q
                (attempt (quote oracle i input)) _ m2
                (attempt_quote oracle abort limit aborts i input m2 w2)
                λ found m3 h w3.
                  either_option _ (λ (c : Metered (Option Seeding)). Ends abort limit Q (c m3))
                    found _ _ h (w3, tt)
                    λ q a.
                      >>=-Ends abort limit
                        (λ p. Sown oracle amount total mask (suc i) count (record {
                          candidate = p;
                          left = s.left - input;
                          remaining = s.remaining - 1;
                        }))
                        Q (lift (put_quote s.candidate i input q)) _ m3
                        (w3, sow i count s input q (omega arith) v b d a)
                        λ p m4 v2 w4.
                          subst
                            (λ k. Ends abort limit (IfSome (Sown oracle amount total mask k 0)) (
                              seed_edges oracle count (suc i) mask
                                (record {
                                  candidate = p;
                                  left = s.left - input;
                                  remaining = s.remaining - 1;
                                })
                                m4))
                            same (seed_edges-Sown count (suc i) _ m4 (omega arith) v2 w4))
        (λ b.
          subst
            (λ k.
              Ends abort limit (IfSome (Sown oracle amount total mask k 0))
                (seed_edges oracle count (suc i) mask s m))
            same (seed_edges-Sown count (suc i) s m (omega arith) (pass_over i count s v b) w))

-- The best seed so far: a priced plan, or no plan at all.
abbrev pub Started : Oracle → ℕ → ℕ → ℕ → ℕ → ExactPlan → Type 0
Started oracle edges amount cost_limit legs p =
    (p.output ≡ 0) ⊎ Priced oracle edges amount cost_limit legs p

module _ (oracle : Oracle) (edges amount cost_limit legs : ℕ) (edges_fit : edges ≤ max_edges)
    (abort : Type 0) (limit : ℕ) (aborts : (i x : ℕ) → oracle i x ≡ panic → abort) where
  better_seed-Started :
      (total mask : ℕ) (best : ExactPlan) (found : Option Seeding)
      → total ≤ legs
      → Started oracle edges amount cost_limit legs best
      → IfSome (Sown oracle amount total mask edges 0) found
      → Started oracle edges amount cost_limit legs (better_seed cost_limit best found)
  unfolding better_seed count_ones
  better_seed-Started total mask best none h v f = v
  better_seed-Started total mask best (some s) h v f =
      either_branch (Started oracle edges amount cost_limit legs)
        (ltb cost_limit s.candidate.cost || leb s.candidate.output best.output) best s.candidate
        (λ e. v)
        (λ e. inr (record {
          quoted = f.quoted;
          spent = let k = f.spent in let left_none = f.used_up f.counted in omega arith;
          affordable = ground arith;
          few = let k = f.few in omega arith;
          outside = f.ahead;
        }))

  empty_plan-Sown :
      (mask : ℕ)
      → 0 < mask
      → mask < 2 ^ edges
      → Sown oracle amount
          (count_ones 16 mask)
          mask
          0
          edges
          (record { candidate = empty_plan; left = amount; remaining = count_ones 16 mask })
  unfolding sum funded
  empty_plan-Sown mask pos small =
      let low : count_ones 16 mask ≡ count_ones edges mask =
        count_ones_low edges 16 mask small (omega arith) in
      let some_ones = count_ones-pos edges mask small pos in
      let whole : mask / 2 ^ 0 ≡ mask = omega arith in
      record {
        quoted = record {
          inputs_fit = refl;
          outputs_fit = refl;
          costs_fit = refl;
          output_total = refl;
          cost_total = refl;
          quotes = λ j.
              let z : get_or empty_plan.inputs j 0 ≡ 0 = get_or-replicate max_edges j 0 in rw z;
        };
        spent = omega arith;
        counted = low ∙ ap (count_ones edges) (sym whole);
        used_up = λ e. absurd (omega arith);
        few = omega arith;
        ahead = λ j h. get_or-replicate max_edges j 0;
      }

  pub seed_masks-Started :
      (count mask : ℕ) (best : ExactPlan) (m : WorkMeter)
      → 0 < mask
      → mask + count ≤ 2 ^ edges
      → Started oracle edges amount cost_limit legs best
      → Within limit m
      → Ends abort limit
          (Started oracle edges amount cost_limit legs)
          (seed_masks oracle edges amount cost_limit legs count mask best m)
  unfolding seed_masks
  seed_masks-Started zero mask best m pos small v w = (w, v)
  seed_masks-Started (suc count) mask best m pos small v w =
      let more : ExactPlan → Metered ExactPlan =
        seed_masks oracle edges amount cost_limit legs count (suc mask) in
      let Q : Outcome ExactPlan × WorkMeter → Type 0 =
        Ends abort limit (Started oracle edges amount cost_limit legs) in
      let start : Seeding = record {
        candidate = empty_plan;
        left = amount;
        remaining = count_ones 16 mask;
      } in
      either_way (λ (c : Metered ExactPlan). Q (c m))
        (ltb legs (count_ones 16 mask) || ltb amount (count_ones 16 mask)) (more best) _
        (λ e. seed_masks-Started count (suc mask) best m (omega arith) (omega arith) v w)
        λ e.
          >>=-Ends abort limit (IfSome (Sown oracle amount (count_ones 16 mask) mask edges 0))
            (Started oracle edges amount cost_limit legs) (seed_edges oracle edges 0 mask start) _ m
            (subst
              (λ k.
                Ends abort limit (IfSome (Sown oracle amount (count_ones 16 mask) mask k 0))
                  (seed_edges oracle edges 0 mask start m))
              (omega arith)
              (seed_edges-Sown oracle abort limit aborts amount (count_ones 16 mask) mask edges 0
                start m (omega arith) (empty_plan-Sown mask pos (omega arith)) w))
            λ found m2 h w2.
              let better =
                better_seed-Started (count_ones 16 mask) mask best found (ground arith) v h in
              either_way Q (m2.used == m2.limit) _ _ (λ e. (w2, better))
                λ e.
                  seed_masks-Started count (suc mask) (better_seed cost_limit best found) m2
                    (omega arith) (omega arith) better w2
