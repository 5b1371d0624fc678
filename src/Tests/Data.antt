-- ===== src/Tests/Data.antt =====
-- The inputs of the tests.
use xtxc.Common.{ℕ, List, [], ◌∷◌, true, ◌*◌, ◌+◌, ◌^◌}
use xtxc.Common.Outcome.{scale}
use xtxc.Common.Meter.{WorkMeter}
use xtxc.Compiler.{Segment, Curve, Model, Snapshot, pad}
use xtxc.Clearing.{FlowIntent, FoldReport}
use xtxc.Clearing.Residual.{ResidualGroup}
use xtxc.Clearing.Lots.{LotFoldReport}
use xtxc.Optimizer.{Allocation}
use xtxc.Compiler.{book}
use xtxc.Optimizer.Search.{SearchReport}
use xtxc.OneBook.{Side, buy, sell, SettlementOptionalOrder, MatchReport}
use xtxc.OneBook.Levels.{ExecutableSlice, VirtualBook, level_of}

abbrev pub band : ℕ → ℕ → Segment
band capacity rate = record { input_capacity = capacity; marginal_q32 = rate * scale }

abbrev pub steep : Curve
steep = record {
  segments = pad (band 100 2 ∷ band 50 1 ∷ []);
  len = 2;
  capacity = 150;
  upper_error_atoms = 0;
  lower_error_atoms = 0;
}

abbrev pub flat : Curve
flat = record {
  segments = pad (band 80 1 ∷ []);
  len = 1;
  capacity = 80;
  upper_error_atoms = 0;
  lower_error_atoms = 0;
}

abbrev pub levels : List Segment
levels = band 100 2 ∷ band 50 1 ∷ []

abbrev pub snapshot_of : Model → Snapshot
snapshot_of m = record {
  market = 1;
  program = 2;
  input_mint = 3;
  output_mint = 4;
  liquidity_id = 5;
  writable_resources = 1;
  slot = 10;
  generation = 1;
  expires_at_slot = 20;
  capacity = 150;
  atomic = true;
  enabled = true;
  model = m;
}

abbrev pub budget : WorkMeter
budget = record { used = 0; limit = 200_000 }

-- Two owners who want each other's asset.
abbrev pub orders : List FlowIntent
orders =
    record {
      owner = 1;
      nonce = 1;
      sell = 0;
      buy = 1;
      amount = 60;
      min_out = 20;
      expires_at_slot = 9;
    }
    ∷ record {
      owner = 2;
      nonce = 1;
      sell = 1;
      buy = 0;
      amount = 20;
      min_out = 40;
      expires_at_slot = 9;
    }
    ∷ []

abbrev pub folded : FoldReport
folded = record {
  fills = record { input = 40; output = 20 } ∷ record { input = 20; output = 40 } ∷ [];
  value_quantum = 2;
  requested_value = 100;
  internally_cleared_value = 80;
  pivots = 1;
  reverse_edge_pivots = 0;
  optimal_at_fixed_prices = true;
}

abbrev pub lot_folded : LotFoldReport
lot_folded = record {
  fills = record { input = 40; output = 20 } ∷ record { input = 20; output = 40 } ∷ [];
  lot_sizes = 2 ∷ 1 ∷ 0 ∷ 0 ∷ 0 ∷ 0 ∷ 0 ∷ 0 ∷ [];
  requested_lots = 50;
  internally_cleared_lots = 40;
  pivots = 1;
  reverse_edge_pivots = 0;
  optimal_at_fixed_lots = true;
}

-- What is left of the first order: 20 atoms, its floor being reached.
abbrev pub rest : ResidualGroup
rest = record { sell = 0; buy = 1; amount_in = 20; min_out = 0; members = 1 }

abbrev pub order_of : Side → ℕ → ℕ → ℕ → SettlementOptionalOrder
order_of side owner exposure delivered = record {
  owner = owner;
  nonce = 1;
  instrument = 7;
  side = side;
  exposure_q32 = exposure;
  limit_price_q32 = 100;
  acceptable_claims = 5 ∷ 6 ∷ 0 ∷ 0 ∷ 0 ∷ 0 ∷ 0 ∷ 0 ∷ [];
  claim_count = 2;
  delivered_claim = delivered;
  max_conversion_bps = 0;
  expires_at_slot = 9;
  arrival_sequence = owner;
}

abbrev pub book_orders : List SettlementOptionalOrder
book_orders = order_of buy 1 30 0 ∷ order_of sell 2 20 6 ∷ []

abbrev pub matched : MatchReport
matched = record {
  fills = record { buyer = 0; seller = 1; claim = 6; exposure_q32 = 20; price_q32 = 100 } ∷ [];
  filled_exposure_q32 = 20 ∷ 20 ∷ [];
  residual_exposure_q32 = 10 ∷ 0 ∷ [];
}

abbrev pub slice_of : ℕ → ℕ → ExecutableSlice
slice_of source exposure = record {
  claim = 5;
  source = source;
  state_hash = 9;
  input_usdc_atoms = 1;
  exposure_q32 = exposure;
  conversion_bps = 0;
  expires_at_slot = 9;
}

abbrev pub slices : List ExecutableSlice
slices = slice_of 1 (2 ^ 32) ∷ slice_of 2 (2 ^ 33) ∷ []

abbrev pub compiled : VirtualBook
compiled = record {
  levels =
      level_of 9 (slice_of 2 (2 ^ 33)) (2 ^ 31) ∷ level_of 9 (slice_of 1 (2 ^ 32)) (2 ^ 32) ∷ [];
  total_exposure_q32 = 2 ^ 32 + 2 ^ 33;
  state_hash = 9;
}

abbrev pub plan : Allocation
plan = record { inputs = 150 ∷ 20 ∷ 0 ∷ 0 ∷ 0 ∷ 0 ∷ 0 ∷ 0 ∷ []; output = 270; mask = 3 }

abbrev pub venues : List Snapshot
venues =
    snapshot_of (book levels 2)
    ∷ record (snapshot_of (book (band 80 1 ∷ []) 1)) {
      market = 11;
      liquidity_id = 15;
      writable_resources = 2;
      capacity = 80;
    }
    ∷ []

abbrev pub found : SearchReport
found = record {
  plan = plan;
  certificate = record { upper_output = 270; achieved_output = 270; gap_atoms = 0 };
  stats = record { masks_considered = 3; feasible_allocations = 1; exact_simulations = 1 };
}
