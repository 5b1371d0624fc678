-- ===== src/Tests/Curves.antt =====
-- Tests of the curves and of the allocator.
use xtxc.Common.{ℕ, ◌≡◌, ◌↔◌, ◌≤◌, ◌<◌, ◌+◌, ◌-◌, ◌*◌, ◌/◌, refl, min, replicate, [], ◌∷◌, arith}
use xtxc.Common.Outcome.{ok, as_u64, ceil_div, scale}
use xtxc.Common.Meter.{charge}
use xtxc.Compiler.{
  Curve, book, constant_product, validate_bands, validate, quote_bands, quote, sum_capacity,
  book_curve, validate_cp, exact_model, exact_quote,
}
use xtxc.Compiler.Bands.{area}
use xtxc.Compiler.Compile.{fill_bands, check_book, compile_book, compile_model, compile}
use xtxc.Compiler.Quote.{
  bands, IsValid, validate-IsValid, validate_iff, quote-area, quote_mono, quote_concave,
}
use xtxc.Compiler.Book.{compile_book_exact, compile_book_total}
use xtxc.Compiler.Product.{exact_quote_keeps_product, exact_quote_product_mono}
use xtxc.Optimizer.{
  Allocation, lanes_of, head_band, prefer, pick_lane, pour, round, fill, validate_lanes,
  check_waterfill, waterfill,
}
use xtxc.Optimizer.Optimal.{IsOptimal, waterfill-IsOptimal}
use xtxc.Optimizer.Search.{
  exact_sum, exact_output, independent_from, independent, aliases, check_venues, add_errors,
  lower_sum, query,
}
use xtxc.Optimizer.Subsets.{
  count_ones, same_inputs, repeated, rank, enlist, try_mask, try_masks, better_plan, choose_best,
  report, search_reference,
}
use xtxc.Optimizer.Sound.{Certified, search_reference-Certified}
use xtxc.Optimizer.Total.{waterfill_total, selected_capacity}
use xtxc.Compiler.{lower_quote}
use xtxc.Compiler.{Segment, no_segment}
use xtxc.Compiler.Chords.{
  compile_product, first_chord, split_all, split, pick, chain, chord_step, gap_of, close_curve,
  cp_fp, derivative_upper,
}
use xtxc.Compiler.Under.{AreUnder, compile-AreUnder}
use xtxc.Tests.Data.{venues, found, steep, flat, levels, snapshot_of, budget, plan}

steep_validates : validate steep ≡ ok tt
unfolding validate validate_bands
steep_validates = refl

steep-IsValid : IsValid steep
steep-IsValid = validate-IsValid steep steep_validates

validate_iff_example : (validate steep ≡ ok tt) ↔ IsValid steep
validate_iff_example = validate_iff steep

quote-area_example : quote steep 120 ≡ ok (area 120 (bands steep) / scale)
quote-area_example = quote-area steep 120 steep-IsValid (omega arith)

quote_of :
    (quote steep 10 ≡ ok 20)
    × (quote steep 20 ≡ ok 40)
    × (quote steep 110 ≡ ok 210)
    × (quote steep 120 ≡ ok 220)
unfolding quote validate validate_bands quote_bands as_u64
quote_of = (refl, refl, refl, refl)

quote_concave_example : 220 + 20 ≤ 40 + 210 + 1
quote_concave_example =
    quote_concave steep 10 10 110 20 40 210 220 steep-IsValid (omega arith) (omega arith) quote_of.0
      quote_of.1 quote_of.2 quote_of.3

quote_mono_example : 20 ≤ 220
quote_mono_example =
    quote_mono steep 10 120 20 220 steep-IsValid (omega arith) (omega arith) quote_of.0 quote_of.3

compile_run : (compile (snapshot_of (book levels 2)) 1_000 budget).0 ≡ ok steep
unfolding charge fill_bands check_book compile_book compile_model compile sum_capacity book_curve
    validate validate_bands
compile_run = refl

compile_book_exact_example :
    IsValid steep
    × (steep.capacity ≡ min 150 1_000)
    × (steep.upper_error_atoms ≡ 0)
    × (steep.lower_error_atoms ≡ 0)
    × ((x : ℕ) → x ≤ steep.capacity → quote steep x ≡ exact_quote (snapshot_of (book levels 2)) x)
compile_book_exact_example =
    compile_book_exact (snapshot_of (book levels 2)) 1_000 levels 2 steep budget refl compile_run

book_covered : check_book 150 levels 2 ≡ ok tt
unfolding check_book sum_capacity book_curve validate validate_bands
book_covered = refl

compile_book_total_example :
    (c : Curve) × ((compile (snapshot_of (book levels 2)) 1_000 budget).0 ≡ ok c)
compile_book_total_example =
    compile_book_total (snapshot_of (book levels 2)) 1_000 levels 2 budget refl
      (record {
        atomic = refl;
        enabled = refl;
        capacity_pos = omega arith;
        capacity_le = omega arith;
        horizon_pos = omega arith;
        horizon_le = omega arith;
        covered = book_covered;
      })
      (omega arith) (omega arith)

pool_run :
    (exact_quote (snapshot_of (constant_product 1_000 2_000 3_000)) 100 ≡ ok 180)
    × (exact_quote (snapshot_of (constant_product 1_000 2_000 3_000)) 120 ≡ ok 212)
unfolding exact_quote exact_model validate_cp as_u64
pool_run = (refl, refl)

exact_quote_keeps_product_example : (180 < 2_000) × (1_000 * 2_000 ≤ (1_000 + 100) * (2_000 - 180))
exact_quote_keeps_product_example =
    exact_quote_keeps_product (snapshot_of (constant_product 1_000 2_000 3_000)) 1_000 2_000 3_000
      100 180 refl pool_run.0

exact_quote_product_mono_example : 180 ≤ 212
exact_quote_product_mono_example =
    exact_quote_product_mono (snapshot_of (constant_product 1_000 2_000 3_000)) 1_000 2_000 3_000
      100 120 180 212 refl (omega arith) pool_run.0 pool_run.1

abbrev segment : ℕ → ℕ → Segment
segment input_capacity marginal_q32 = record {
  input_capacity = input_capacity;
  marginal_q32 = marginal_q32;
}

-- A pool up to four atoms, split down to single ones.
abbrev pool_curve : Curve
pool_curve = record {
  segments =
      segment 1 8_555_634_820
      ∷ segment 1 8_538_608_834
      ∷ segment 1 8_521_633_621
      ∷ segment 1 8_504_708_979
      ∷ replicate 12 no_segment;
  len = 4;
  capacity = 4;
  upper_error_atoms = 1;
  lower_error_atoms = 3;
}

compile_pool_run :
    (compile (snapshot_of (constant_product 1_000 2_000 3_000)) 4 budget).0 ≡ ok pool_curve
unfolding compile compile_model compile_product first_chord split_all split pick chain chord_step
    gap_of close_curve cp_fp derivative_upper charge ceil_div as_u64 validate validate_bands
    validate_cp
compile_pool_run = refl

compile-AreUnder_example :
    IsValid pool_curve
    × (pool_curve.capacity ≡ min 150 4)
    × AreUnder 1_000 2_000 997_000 0 0 pool_curve.segments
compile-AreUnder_example =
    compile-AreUnder (snapshot_of (constant_product 1_000 2_000 3_000)) 1_000 2_000 3_000 4
      pool_curve budget refl compile_pool_run

waterfill_run : (waterfill (steep ∷ flat ∷ []) 170 3 budget).0 ≡ ok plan
unfolding charge as_u64 validate validate_bands lanes_of head_band prefer pick_lane pour round fill
    validate_lanes check_waterfill waterfill
waterfill_run = refl

waterfill-IsOptimal_example : IsOptimal (steep ∷ flat ∷ []) 170 3 plan
waterfill-IsOptimal_example =
    waterfill-IsOptimal (steep ∷ flat ∷ []) 170 3 plan budget waterfill_run

flat_validates : validate flat ≡ ok tt
unfolding validate validate_bands
flat_validates = refl

room : 170 ≤ selected_capacity 3 0 (steep ∷ flat ∷ [])
unfolding selected_capacity
room = omega arith

waterfill_total_example : (p : Allocation) × ((waterfill (steep ∷ flat ∷ []) 170 3 budget).0 ≡ ok p)
waterfill_total_example =
    waterfill_total (steep ∷ flat ∷ []) 170 3 budget (omega arith) (omega arith) (omega arith)
      (omega arith) (omega arith) (omega arith)
      ((λ e. steep-IsValid), ((λ e. validate-IsValid flat flat_validates), tt)) room (omega arith)
      (omega arith)

search_run : (search_reference venues (steep ∷ flat ∷ []) 170 3 4 budget).0 ≡ ok found
unfolding charge as_u64 validate validate_bands quote_bands quote lower_quote sum_capacity
    book_curve exact_model exact_quote lanes_of head_band prefer pick_lane pour round fill
    validate_lanes check_waterfill waterfill exact_sum exact_output independent_from independent
    aliases check_venues add_errors lower_sum query count_ones same_inputs repeated rank enlist
    try_mask try_masks better_plan choose_best report search_reference
search_run = refl

search_reference-Certified_example : Certified venues (steep ∷ flat ∷ []) 170 3 4 found
search_reference-Certified_example =
    search_reference-Certified venues (steep ∷ flat ∷ []) 170 3 4 budget found search_run
