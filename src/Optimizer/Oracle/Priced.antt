-- ===== src/Optimizer/Oracle/Priced.antt =====
-- engine/stockmesh/optimizer/oracle.rs: what holds of every plan that the refinement keeps.
use xtxc.Common.{
  ℕ, ◌+◌, ◌≡◌, ◌≤◌, ◌<◌, ◌∙◌, false, List, arith, ltb, ◌==◌, if◌then◌else◌, get_or, set, length,
  ltb→le,
}
use xtxc.Common.Outcome.{Outcome, ok, max_edges}
use xtxc.Common.Ends.{Ending, >>=-Ending, either_way, either_branch}
use xtxc.Optimizer.Waterfill.{sum}
use xtxc.Optimizer.Oracle.{Oracle, ExactPlan}
use xtxc.Optimizer.Oracle.Refine.{funded, exchange_total, propose}
use xtxc.Optimizer.Oracle.Arrays.{
  one_if, length-exchange, sum-exchange, get_or-exchange, funded-exchange, pair-le,
}

-- The quote for an input: nothing for nothing, and else the oracle's.
abbrev pub answer : Oracle → ℕ → ℕ → Outcome (ℕ × ℕ)
answer oracle i x = if x == 0 then ok (0, 0) else oracle i x

-- The quotes of a plan: every venue's output and cost are the oracle's, and the totals are their sums.
pub record Quoted (oracle : Oracle) (p : ExactPlan) : Type 0 where
  pub inputs_fit : length p.inputs ≡ max_edges
  pub outputs_fit : length p.outputs ≡ max_edges
  pub costs_fit : length p.costs ≡ max_edges
  pub output_total : sum p.outputs ≡ p.output
  pub cost_total : sum p.costs ≡ p.cost
  pub quotes :
      (i : ℕ)
      → answer oracle i (get_or p.inputs i 0) ≡ ok (get_or p.outputs i 0, get_or p.costs i 0)

-- A plan that spends the amount on at most `legs` of the first `edges` venues within the cost.
pub record Priced (oracle : Oracle) (edges amount cost_limit legs : ℕ) (p : ExactPlan)
    : Type 0 where
  pub quoted : Quoted oracle p
  pub spent : sum p.inputs ≡ amount
  pub affordable : p.cost ≤ cost_limit
  pub few : funded p.inputs ≤ legs
  pub outside : (i : ℕ) → edges ≤ i → get_or p.inputs i 0 ≡ 0

exchange_total-Ending :
    (abort : Type 0) (total : ℕ) (xs : List ℕ) (from to x y : ℕ)
    → sum xs ≡ total
    → get_or xs from 0 + get_or xs to 0 ≤ total
    → Ending abort
        (λ t. t + get_or xs from 0 + get_or xs to 0 ≡ total + x + y)
        (exchange_total total xs from to x y)
unfolding exchange_total
exchange_total-Ending abort total xs from to x y e h = ground arith

module _ (oracle : Oracle) (edges amount cost_limit legs : ℕ) (from to a b : ℕ) (qa qb : ℕ × ℕ)
    (apart : (from == to) ≡ false) (from_fits : from < edges) (to_fits : to < edges)
    (edges_fit : edges ≤ max_edges) (answer_a : answer oracle from a ≡ ok qa)
    (answer_b : answer oracle to b ≡ ok qb) where
  exchanged : ExactPlan → ℕ → ℕ → ExactPlan
  exchanged best output cost = record best {
    inputs = set (set best.inputs from a) to b;
    outputs = set (set best.outputs from qa.0) to qb.0;
    output = output;
    costs = set (set best.costs from qa.1) to qb.1;
    cost = cost;
    exchanges = best.exchanges + 1;
  }

  exchanged-Quoted :
      (best : ExactPlan) (output cost : ℕ)
      → Quoted oracle best
      → output + get_or best.outputs from 0 + get_or best.outputs to 0 ≡ best.output + qa.0 + qb.0
      → cost + get_or best.costs from 0 + get_or best.costs to 0 ≡ best.cost + qa.1 + qb.1
      → Quoted oracle (exchanged best output cost)
  unfolding exchanged
  exchanged-Quoted best output cost v o c = record {
    inputs_fit = length-exchange best.inputs from to a b ∙ v.inputs_fit;
    outputs_fit = length-exchange best.outputs from to qa.0 qb.0 ∙ v.outputs_fit;
    costs_fit = length-exchange best.costs from to qa.1 qb.1 ∙ v.costs_fit;
    output_total =
        let k = v.outputs_fit in
        let t = v.output_total in
        let g = sum-exchange best.outputs from to qa.0 qb.0 apart (omega arith) (omega arith) in
        omega arith;
    cost_total =
        let k = v.costs_fit in
        let t = v.cost_total in
        let g = sum-exchange best.costs from to qa.1 qb.1 apart (omega arith) (omega arith) in
        omega arith;
    quotes = λ j.
        let k = v.inputs_fit in
        let k2 = v.outputs_fit in
        let k3 = v.costs_fit in
        let g = get_or-exchange best.inputs from to a b apart (omega arith) (omega arith) j in
        let g2 =
          get_or-exchange best.outputs from to qa.0 qb.0 apart (omega arith) (omega arith) j in
        let g3 = get_or-exchange best.costs from to qa.1 qb.1 apart (omega arith) (omega arith) j in
        rw g (rw g2 (rw g3 (ground (arith, v.quotes j))));
  }

  exchanged-Priced :
      (best : ExactPlan) (output cost : ℕ)
      → Priced oracle edges amount cost_limit legs best
      → Quoted oracle (exchanged best output cost)
      → a + b ≡ get_or best.inputs from 0 + get_or best.inputs to 0
      → funded best.inputs + one_if a + one_if b
        ≤ legs + one_if (get_or best.inputs from 0) + one_if (get_or best.inputs to 0)
      → cost ≤ cost_limit
      → Priced oracle edges amount cost_limit legs (exchanged best output cost)
  unfolding exchanged
  exchanged-Priced best output cost v q same few afford =
      let k = v.quoted.inputs_fit in
      record {
        quoted = q;
        spent =
            let t = v.spent in
            let g = sum-exchange best.inputs from to a b apart (omega arith) (omega arith) in
            omega arith;
        affordable = afford;
        few =
            let g = funded-exchange best.inputs from to a b apart (omega arith) (omega arith) in
            omega arith;
        outside = λ i h.
            let g = get_or-exchange best.inputs from to a b apart (omega arith) (omega arith) i in
            rw g (ground (arith, v.outside i h));
      }

  module _ (abort : Type 0) where
    pub propose-Priced :
        (best next : ExactPlan)
        → Priced oracle edges amount cost_limit legs best
        → Priced oracle edges amount cost_limit legs next
        → a + b ≡ get_or best.inputs from 0 + get_or best.inputs to 0
        → funded best.inputs + one_if a + one_if b
          ≤ legs + one_if (get_or best.inputs from 0) + one_if (get_or best.inputs to 0)
        → Ending abort
            (λ p. Priced oracle edges amount cost_limit legs p × (next.output ≤ p.output))
            (propose cost_limit best from to a b qa qb next)
    unfolding propose exchanged
    propose-Priced best next v w same few =
        let k = v.quoted.costs_fit in
        let k2 = v.quoted.outputs_fit in
        let costs = pair-le best.costs from to 0 0 apart (omega arith) in
        let outputs = pair-le best.outputs from to 0 0 apart (omega arith) in
        let ct = v.quoted.cost_total in
        let ot = v.quoted.output_total in
        >>=-Ending abort _ _ (exchange_total best.cost best.costs from to qa.1 qb.1) _
          (exchange_total-Ending abort best.cost best.costs from to qa.1 qb.1 ct (omega arith))
          λ cost c.
            either_way (Ending abort _) (ltb cost_limit cost) _ _ (λ e. (w, omega arith))
              λ e.
                >>=-Ending abort _ _ (exchange_total best.output best.outputs from to qa.0 qb.0) _
                  (exchange_total-Ending abort best.output best.outputs from to qa.0 qb.0 ot
                    (omega arith))
                  λ output o.
                    either_branch
                      (λ p. Priced oracle edges amount cost_limit legs p × (next.output ≤ p.output))
                      (ltb next.output output) _ _
                      (λ better. (
                        exchanged-Priced best output cost v
                            (exchanged-Quoted best output cost v.quoted o c) same few
                            (ltb→le _ _ e),
                        ground arith,
                      ))
                      (λ e. (w, omega arith))
