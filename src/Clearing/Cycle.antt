-- ===== src/Clearing/Cycle.antt =====
-- engine/stockmesh/clearing/mod.rs: the metered search of the residual graph and the pivot loop.
use xtxc.Common.{ℕ, zero, suc, ◌*◌, Bool, true, false, Option, none, some, List, replicate, length}
use xtxc.Common.Meter.{Metered, charge, ◌>>=◌, ◌>>◌, lift, pure}
use xtxc.Clearing.{FlowIntent, Search, max_assets, arc, relax, extract, Folding, push}

module _ (orders : List FlowIntent) (capacities flows : List ℕ) where
  -- `for j in 0..orders.len() * 2`, from `j` on.
  unfoldable pub relax_all : ℕ → ℕ → Search → Metered Search
  relax_all zero j s = pure s
  relax_all (suc count) j s = do
    charge 1
    e ← lift (arc orders capacities flows j)
    t ← lift (relax e j s)
    relax_all count (suc j) t

  -- `for _ in 0..assets`; `none` when a round changes nothing.
  unfoldable pub relax_rounds : ℕ → Search → Metered (Option Search)
  relax_rounds zero s = pure (some s)
  relax_rounds (suc assets) s = do
    t ← relax_all (length orders * 2) 0 (record s { updated = none })
    elim t.updated [ none ↦ pure none | some v ↦ relax_rounds assets t ]

  abbrev pub new_search : Search
  new_search = record {
    distance = replicate max_assets 0;
    previous = replicate max_assets none;
    updated = none;
  }

  unfoldable pub extract_cycle : ℕ → Option Search → Metered (Option (List ℕ))
  extract_cycle assets none = pure none
  extract_cycle assets (some s) = do
    cycle ← lift (extract orders capacities flows s assets)
    pure (some cycle)

  unfoldable pub improving_cycle : ℕ → Metered (Option (List ℕ))
  improving_cycle assets = do found ← relax_rounds assets new_search; extract_cycle assets found

module _ (orders : List FlowIntent) (capacities : List ℕ) (assets : ℕ) where
  -- `for _ in 0..max_pivots`, which a graph without an improving cycle leaves.
  unfoldable pub pivot_all : ℕ → Folding → Metered Folding
  pivot_all zero f = pure f
  pivot_all (suc pivots) f = do
    found ← improving_cycle orders capacities f.flows assets
    elim found [
      | none ↦ pure (record f { optimal = true })
      | some cycle ↦ lift (push orders capacities cycle f) >>= λ g. pivot_all pivots g
    ]

  unfoldable pub is_none : Option (List ℕ) → Bool
  is_none none = true
  is_none (some cycle) = false

  -- The test of the result when the pivots run out.
  unfoldable pub certify : Folding → Metered Folding
  certify f = elim f.optimal [
    | true ↦ pure f
    | false ↦ improving_cycle orders capacities f.flows assets >>= λ found.
        pure (record f { optimal = is_none found })
  ]
