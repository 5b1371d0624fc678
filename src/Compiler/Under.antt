-- ===== src/Compiler/Under.antt =====
-- engine/stockmesh/compiler/mod.rs: that a curve compiled from a pool never promises more than the pool
-- pays, at the end of any of its bands.
use native.Mathlib.Nat.{mul-le-mul_right, le_trans}
use xtxc.Common.{
  ℕ, zero, suc, ◌+◌, ◌-◌, ◌*◌, ◌/◌, ◌≤◌, ◌<◌, min, max, ◌≡◌, refl, sym, ap, subst, ◌∙◌, arith, ltb,
  List, [], ◌∷◌, ◌++◌, replicate, length,
}
use xtxc.Common.Outcome
use xtxc.Common.Outcome.{
  Outcome, ok, err, panic, invalid_curve, as_u64, u64_mod, ceil_div, scale, add_word, sub_word,
  mul_word, div_word, u128_mod, index, reject, max_rate, max_segments,
}
use xtxc.Common.Meter.{charge, WorkMeter, >>=-eq-ok, lift}
use xtxc.Compiler.{Segment, Curve, pad, no_segment, validate_cp, validate}
use xtxc.Compiler.Chords.{
  cp_fp, derivative_upper, Chords, split_all, first_chord, Chain, chord_step, chain, close_curve,
  compile_product, no_chain,
}
use xtxc.Compiler.{Snapshot, constant_product}
use xtxc.Compiler.Quote.{IsValid}
use xtxc.Compiler.Compile.{compile, compile_model}
use xtxc.Compiler.Product.{compile_model_of, compile_product-IsValid}
use xtxc.Compiler.Sampled.{
  Pays, le_div_keeps, cp_fp-Pays, IsSampled, index-Sampled, split_all-IsSampled,
}

-- The widths of a list of bands, and what they pay.
unfoldable pub widths : List Segment → ℕ
widths [] = 0
widths (s ∷ ss) = s.input_capacity + widths ss

unfoldable pub payments : List Segment → ℕ
payments [] = 0
payments (s ∷ ss) = s.input_capacity * s.marginal_q32 + payments ss

-- At the end of each band, after `x` atoms for `v`, the bands have promised no more than the pool pays.
abbrev pub AreUnder : ℕ → ℕ → ℕ → ℕ → ℕ → List Segment → Type 0
AreUnder r y f x v [] = Unit
AreUnder r y f x v (s ∷ ss) =
    Pays r y f (x + s.input_capacity) (v + s.input_capacity * s.marginal_q32)
    × AreUnder r y f (x + s.input_capacity) (v + s.input_capacity * s.marginal_q32) ss

AreUnder-append :
    (r y f x v : ℕ) (ss : List Segment) (s : Segment)
    → AreUnder r y f x v ss
    → Pays r y f
        (x + widths ss + s.input_capacity)
        (v + payments ss + s.input_capacity * s.marginal_q32)
    → AreUnder r y f x v (ss ++ s ∷ [])
unfolding widths payments
AreUnder-append r y f x v [] s u p = (
  subst (λ n. Pays r y f (n + s.input_capacity) (v + s.input_capacity * s.marginal_q32))
      (omega arith)
      (subst (λ n. Pays r y f (x + 0 + s.input_capacity) (n + s.input_capacity * s.marginal_q32))
        (omega arith) p),
  tt,
)
AreUnder-append r y f x v (h ∷ ss) s u p = (
  u.0,
  AreUnder-append r y f (x + h.input_capacity) (v + h.input_capacity * h.marginal_q32) ss s u.1 (
      subst
        (λ n.
          Pays r y f (n + s.input_capacity) (
            v
            + h.input_capacity * h.marginal_q32
            + payments ss
            + s.input_capacity * s.marginal_q32))
        (omega arith)
        (subst
          (λ n.
            Pays r y f (x + (h.input_capacity + widths ss) + s.input_capacity)
              (n + s.input_capacity * s.marginal_q32))
          (omega arith) p)),
)

AreUnder-pad :
    (r y f x v : ℕ) (ss : List Segment) (n : ℕ)
    → AreUnder r y f x v ss
    → Pays r y f (x + widths ss) (v + payments ss)
    → AreUnder r y f x v (ss ++ replicate n no_segment)
unfolding widths payments
AreUnder-pad r y f x v [] zero u p = tt
AreUnder-pad r y f x v [] (suc n) u p =
    let here : Pays r y f (x + 0) (v + 0 * 0) = p in
    (
      here,
      AreUnder-pad r y f (x + 0) (v + 0 * 0) [] n tt (
          subst (λ k. Pays r y f k (v + 0 * 0 + 0)) (omega arith)
            (subst (λ k. Pays r y f (x + 0) k) (omega arith) here)),
    )
AreUnder-pad r y f x v (h ∷ ss) n u p = (
  u.0,
  AreUnder-pad r y f (x + h.input_capacity) (v + h.input_capacity * h.marginal_q32) ss n u.1 (
      subst (λ k. Pays r y f k (v + h.input_capacity * h.marginal_q32 + payments ss)) (omega arith)
        (subst (λ k. Pays r y f (x + (h.input_capacity + widths ss)) k) (omega arith) p)),
)

widths-append :
    (ss : List Segment) (s : Segment) → widths (ss ++ s ∷ []) ≡ widths ss + s.input_capacity
unfolding widths
widths-append [] s = omega arith
widths-append (h ∷ ss) s = let rest = widths-append ss s in omega arith

payments-append :
    (ss : List Segment) (s : Segment)
    → payments (ss ++ s ∷ []) ≡ payments ss + s.input_capacity * s.marginal_q32
unfolding payments
payments-append [] s = omega arith
payments-append (h ∷ ss) s = let rest = payments-append ss s in omega arith

slope_le :
    (rise width steep previous : ℕ)
    → 0 < width
    → steep ≡ rise / width
    → min steep previous * width ≤ rise
slope_le rise width steep previous p e =
    let whole : rise / width * width ≤ rise = le_div_keeps rise width p in
    le_trans (mul-le-mul_right width (rw e (omega arith))) whole

Pays-weakened : (r y f x v w : ℕ) → v ≤ w → Pays r y f x w → Pays r y f x v
Pays-weakened r y f x v w h p = le_trans (mul-le-mul_right (r * 1_000_000 + x * f) h) p

-- The bands up to the boundary `i`.
pub record Under (r y f : ℕ) (c : Chords) (i : ℕ) (s : Chain) : Type 0 where
  pub under : AreUnder r y f 0 0 s.chain_bands
  pub reached : index c.boundaries i ≡ ok (widths s.chain_bands)
  pub promised : payments s.chain_bands ≡ s.integral
  pub covered : (v : ℕ) → index c.values i ≡ ok v → s.integral ≤ v
  pub so_far : Pays r y f (widths s.chain_bands) (payments s.chain_bands)

extended :
    (r y f : ℕ) (c : Chords) (i : ℕ) (s : Chain)
    (a b width fa fb rise steep steep' integral' error : ℕ)
    → IsSampled r y f c
    → index c.boundaries i ≡ ok a
    → index c.boundaries (suc i) ≡ ok b
    → sub_word b a ≡ ok width
    → index c.values i ≡ ok fa
    → index c.values (suc i) ≡ ok fb
    → sub_word fb fa ≡ ok rise
    → div_word rise width ≡ ok steep
    → as_u64 steep ≡ ok steep'
    → add_word u128_mod s.integral (min steep' s.previous * width) ≡ ok integral'
    → Under r y f c i s
    → Under r y f c (suc i) (record {
      chain_bands =
          s.chain_bands
          ++ record { input_capacity = width; marginal_q32 = min steep' s.previous } ∷ [];
      integral = integral';
      error_fp = error;
      previous = min steep' s.previous;
    })
unfolding as_u64
extended r y f c i s a b width fa fb rise steep steep' integral' error sampled e1 e2 e3 e4 e5 e6 e7
      e8 e14 u =
    let band : Segment = record { input_capacity = width; marginal_q32 = min steep' s.previous } in
    let at : widths s.chain_bands ≡ a = Outcome.ok-inj (sym u.reached ∙ e1) in
    let promised = u.promised in
    let below = u.covered fa e4 in
    let wide : a + width ≡ b = ground arith in
    let risen : fa + rise ≡ fb = ground arith in
    let steep_eq : steep' ≡ rise / width = ground arith in
    let some_width : 0 < width = ground arith in
    let gained : min steep' s.previous * width ≤ rise =
      slope_le rise width steep' s.previous some_width steep_eq in
    let sum : s.integral + min steep' s.previous * width ≡ integral' = ground arith in
    let new_widths = widths-append s.chain_bands band in
    let new_payments = payments-append s.chain_bands band in
    let swap : width * min steep' s.previous ≡ min steep' s.previous * width = omega arith in
    let capped : integral' ≤ fb = omega arith in
    let pays_b =
      Pays-weakened r y f b integral' fb capped
        (index-Sampled r y f c.boundaries c.values (suc i) b fb sampled.0 e2 e5) in
    let all_widths : widths s.chain_bands + width ≡ b = omega arith in
    let all_payments : payments s.chain_bands + width * min steep' s.previous ≡ integral' =
      omega arith in
    let from_zero : 0 + widths s.chain_bands + width ≡ b = omega arith in
    let paid_from_zero : 0 + payments s.chain_bands + width * min steep' s.previous ≡ integral' =
      omega arith in
    record {
      under = AreUnder-append r y f 0 0 s.chain_bands band u.under (
          subst (λ n. Pays r y f n (0 + payments s.chain_bands + width * min steep' s.previous))
            (sym from_zero) (subst (λ n. Pays r y f b n) (sym paid_from_zero) pays_b));
      reached = e2 ∙ ap ok (sym (new_widths ∙ all_widths));
      promised = new_payments ∙ all_payments;
      covered = λ v e. subst (λ n. integral' ≤ n) (Outcome.ok-inj (sym e5 ∙ e)) capped;
      so_far =
          subst (λ n. Pays r y f n (payments (s.chain_bands ++ band ∷ [])))
            (sym (new_widths ∙ all_widths))
            (subst (λ n. Pays r y f b n) (sym (new_payments ∙ all_payments)) pays_b);
    }

chord_step-Under :
    (r y f : ℕ) (c : Chords) (i : ℕ) (s s' : Chain)
    → IsSampled r y f c
    → chord_step c i s ≡ ok s'
    → Under r y f c i s
    → Under r y f c (suc i) s'
unfolding chord_step
chord_step-Under r y f c i s s' sampled h u =
    let (a, e1, h1) = Outcome.>>=-eq-ok (index c.boundaries i) _ h in
    let (b, e2, h2) = Outcome.>>=-eq-ok (index c.boundaries (suc i)) _ h1 in
    let (width, e3, h3) = Outcome.>>=-eq-ok (sub_word b a) _ h2 in
    let (fa, e4, h4) = Outcome.>>=-eq-ok (index c.values i) _ h3 in
    let (fb, e5, h5) = Outcome.>>=-eq-ok (index c.values (suc i)) _ h4 in
    let (rise, e6, h6) = Outcome.>>=-eq-ok (sub_word fb fa) _ h5 in
    let (steep, e7, h7) = Outcome.>>=-eq-ok (div_word rise width) _ h6 in
    let (steep', e8, h8) = Outcome.>>=-eq-ok (as_u64 steep) _ h7 in
    let slope : ℕ = min steep' s.previous in
    let (tangent, _, h9) = Outcome.>>=-eq-ok (index c.tangents i) _ h8 in
    let (above, _, h10) = Outcome.>>=-eq-ok (add_word u128_mod fa 1) _ h9 in
    let (start, _, h11) = Outcome.>>=-eq-ok (sub_word above s.integral) _ h10 in
    let (spread, _, h12) = Outcome.>>=-eq-ok (mul_word u128_mod (tangent - slope) width) _ h11 in
    let (gap, _, h13) = Outcome.>>=-eq-ok (add_word u128_mod start spread) _ h12 in
    let (integral', e14, h14) =
      Outcome.>>=-eq-ok (add_word u128_mod s.integral (slope * width)) _ h13 in
    subst (Under r y f c (suc i)) (Outcome.ok-inj h14) (
      extended r y f c i s a b width fa fb rise steep steep' integral' (max s.error_fp gap) sampled
        e1 e2 e3 e4 e5 e6 e7 e8 e14 u)

chain-Under :
    (rounds r y f : ℕ) (c : Chords) (i : ℕ) (s s' : Chain) (m : WorkMeter)
    → IsSampled r y f c
    → (chain rounds i c s m).0 ≡ ok s'
    → Under r y f c i s
    → Under r y f c (i + rounds) s'
unfolding chain
chain-Under zero r y f c i s s' m sampled h u =
    subst (λ n. Under r y f c n s') (omega arith) (subst (Under r y f c i) (Outcome.ok-inj h) u)
chain-Under (suc rounds) r y f c i s s' m sampled h u =
    let (_, _, h1) = >>=-eq-ok (charge 1) _ m s' h in
    let (next, e, h2) = >>=-eq-ok (lift (chord_step c i s)) _ _ s' h1 in
    let rest =
      chain-Under rounds r y f c (suc i) next s' _ sampled h2
        (chord_step-Under r y f c i s next sampled e u) in
    subst (λ n. Under r y f c n s') (omega arith) rest

first_chord-IsSampled :
    (r y f capacity : ℕ) (c : Chords) → first_chord r y f capacity ≡ ok c → IsSampled r y f c
unfolding first_chord
first_chord-IsSampled r y f capacity c h =
    let (tangent, _, h1) = Outcome.>>=-eq-ok (derivative_upper r y f 0) _ h in
    let (_, _, h2) = Outcome.>>=-eq-ok (reject (ltb max_rate tangent) invalid_curve) _ h1 in
    let (value, e, h3) = Outcome.>>=-eq-ok (cp_fp r y f capacity) _ h2 in
    let (slope, _, h4) = Outcome.>>=-eq-ok (div_word value capacity) _ h3 in
    let (gap, _, h5) = Outcome.>>=-eq-ok (mul_word u128_mod (tangent - slope) capacity) _ h4 in
    subst (IsSampled r y f) (Outcome.ok-inj h5)
      (((omega arith, (cp_fp-Pays r y f capacity value e, tt)), refl))

no_chain-Under : (r y f : ℕ) (c : Chords) → IsSampled r y f c → Under r y f c 0 no_chain
unfolding widths payments
no_chain-Under r y f c sampled = record {
  under = tt;
  reached = sampled.1;
  promised = refl;
  covered = λ v e. omega arith;
  so_far = omega arith;
}

close_curve-segments :
    (r y capacity n : ℕ) (s : Chain) (c : Curve)
    → close_curve r y capacity n s ≡ ok c
    → pad s.chain_bands ≡ c.segments
unfolding close_curve
close_curve-segments r y capacity n s c h =
    let (a, _, h1) = Outcome.>>=-eq-ok (ceil_div s.error_fp scale) _ h in
    let (a', _, h2) = Outcome.>>=-eq-ok (as_u64 a) _ h1 in
    let (b, _, h3) = Outcome.>>=-eq-ok (ceil_div y r) _ h2 in
    let (b', _, h4) = Outcome.>>=-eq-ok (add_word u128_mod b 1) _ h3 in
    let (b'', _, h5) = Outcome.>>=-eq-ok (as_u64 b') _ h4 in
    let (_, valid, h6) = Outcome.>>=-eq-ok (validate _) _ h5 in ground arith

compile_product-AreUnder :
    (r y fee capacity : ℕ) (c : Curve) (m : WorkMeter)
    → (compile_product r y fee capacity m).0 ≡ ok c
    → AreUnder r y (1_000_000 - fee) 0 0 c.segments
unfolding compile_product
compile_product-AreUnder r y fee capacity c m h =
    let f : ℕ = 1_000_000 - fee in
    let (_, _, h1) = >>=-eq-ok (lift (validate_cp r y fee)) _ m c h in
    let (first, e1, h2) = >>=-eq-ok (lift (first_chord r y f capacity)) _ _ c h1 in
    let ((n, cs), e2, h3) = >>=-eq-ok (split_all 15 r y f 1 first) _ _ c h2 in
    let (s, e3, h4) = >>=-eq-ok (chain n 0 cs no_chain) _ _ c h3 in
    let sampled =
      split_all-IsSampled 15 r y f 1 first _ n cs e2
        (first_chord-IsSampled r y f capacity first e1) in
    let u = chain-Under n r y f cs 0 no_chain s _ sampled e3 (no_chain-Under r y f cs sampled) in
    subst (AreUnder r y f 0 0) (close_curve-segments r y capacity n s c h4) (
      AreUnder-pad r y f 0 0 s.chain_bands (max_segments - length s.chain_bands) u.under (
        subst (λ k. Pays r y f k (0 + payments s.chain_bands)) (omega arith)
          (subst (λ k. Pays r y f (widths s.chain_bands) k) (omega arith) u.so_far)))

-- A curve compiled from a pool is valid and reaches exactly as far as the snapshot's capacity and the
-- horizon both allow. At the end of each of its bands, its bands so far promise no more than what the
-- pool pays for their atoms, net of the fee and before any rounding.
pub compile-AreUnder :
    (s : Snapshot) (r y fee horizon : ℕ) (c : Curve) (m : WorkMeter)
    → s.model ≡ constant_product r y fee
    → (compile s horizon m).0 ≡ ok c
    → IsValid c
      × (c.capacity ≡ min s.capacity horizon)
      × AreUnder r y (1_000_000 - fee) 0 0 c.segments
unfolding compile_model
compile-AreUnder s r y fee horizon c m e h =
    let run : (compile_product r y fee (min s.capacity horizon) m).0 ≡ ok c =
      rw e at (compile_model_of s horizon c m h) in
    let (valid, reach) = compile_product-IsValid r y fee (min s.capacity horizon) c m run in
    (valid, reach, compile_product-AreUnder r y fee (min s.capacity horizon) c m run)
