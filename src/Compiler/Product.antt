-- ===== src/Compiler/Product.antt =====
-- engine/stockmesh/compiler/mod.rs: the exact quote of a constant-product pool, and the curves of
-- `compile`.
use native.Mathlib.Nat.{mul-le-mul_left, mul-le-mul_right, le-div_iff_mul-le}
use xtxc.Common.{
  ℕ, ◌+◌, ◌-◌, ◌*◌, ◌/◌, ◌≤◌, ◌<◌, min, ◌≡◌, refl, subst, arith, ltb, Bool-cases, inl, inr,
}
use xtxc.Common.Outcome
use xtxc.Common.Outcome.{
  Outcome, ok, err, invalid_curve, max_atoms, as_u64, u64_mod, ceil_div, scale, add_word, u128_mod,
}
use xtxc.Common.Meter.{WorkMeter, >>=-eq-ok, lift}
use xtxc.Compiler.{
  Curve, Snapshot, constant_product, validate, validate_cp, exact_model, exact_quote,
}
use xtxc.Compiler.Quote.{IsValid, validate-IsValid}
use xtxc.Compiler.Chords.{
  compile_product, Chain, close_curve, first_chord, split_all, chain, no_chain,
}
use xtxc.Compiler.Compile.{compile, compile_model}

abbrev pub net_of : ℕ → ℕ → ℕ
net_of fee x = x * (1_000_000 - fee) / 1_000_000

-- A fraction of `y` below one, rounded down.
share_keeps : (r y n q : ℕ) → 0 < r → q ≡ y * n / (r + n) → q * (r + n) ≤ y * n
share_keeps r y n q h e = grind arith

share_le : (r y n : ℕ) → 0 < r → y * n / (r + n) ≤ y
share_le r y n h = grind arith

net_le : (fee x : ℕ) → net_of fee x ≤ x
net_le fee x = omega (arith, mul-le-mul_left {m = 1_000_000 - fee} {n = 1_000_000} x (omega arith))

net_mono : (fee x x' : ℕ) → x ≤ x' → net_of fee x ≤ net_of fee x'
net_mono fee x x' h = omega (arith, mul-le-mul_right {m = x} {n = x'} (1_000_000 - fee) h)

-- If `out` of `w + out` is at most the share of `n` in `r + n`, the rest is worth the other share.
product_kept :
    (r n x w out : ℕ) → out * (r + n) ≤ (w + out) * n → n ≤ x → r * (w + out) ≤ (r + x) * w
product_kept r n x w out k h = omega (arith, k, mul-le-mul_left {m = n} {n = x} w h)

below_reserve : (r n y out : ℕ) → 0 < r → 0 < y → out * (r + n) ≤ y * n → out < y
below_reserve r n y out pr py k = elim (Bool-cases (ltb out y)) [
  | inl below ↦ ground arith
  | inr above ↦
      let far : y * (r + n) ≤ out * (r + n) = mul-le-mul_right (r + n) (ground arith) in
      let some_left : 1 ≤ y * r = grind arith in absurd (omega arith)
]

share_mono : (r y n n' : ℕ) → 0 < r → n ≤ n' → y * n / (r + n) ≤ y * n' / (r + n')
share_mono r y n n' h le =
    let q = y * n / (r + n) in
    let k : q * (r + n) ≤ y * n = share_keeps r y n q h refl in
    let more : q * (n' - n) ≤ y * (n' - n) = mul-le-mul_right (n' - n) (share_le r y n h) in
    let e : n' ≡ n + (n' - n) = omega arith in
    (le-div_iff_mul-le (omega arith)).1 (rw e (omega arith))

exact_model_product :
    (r y fee x out : ℕ)
    → exact_model (constant_product r y fee) x ≡ ok out
    → (0 < r) × (0 < y) × (out ≡ y * net_of fee x / (r + net_of fee x))
unfolding exact_model validate_cp as_u64
exact_model_product r y fee x out h = ground arith

-- The pool never loses: after a trade of `x` for `out` atoms the product of the reserves, with the
-- whole input added, is at least what it was, and something of the output reserve is left.
pub exact_quote_keeps_product :
    (s : Snapshot) (r y fee x out : ℕ)
    → s.model ≡ constant_product r y fee
    → exact_quote s x ≡ ok out
    → (out < y) × (r * y ≤ (r + x) * (y - out))
unfolding exact_quote
exact_quote_keeps_product s r y fee x out e h =
    let (pr, py, q) = exact_model_product r y fee x out (ground (arith, e)) in
    let n = net_of fee x in
    let k : out * (r + n) ≤ y * n = share_keeps r y n out pr q in
    let less = below_reserve r n y out pr py k in
    let e : y ≡ (y - out) + out = omega arith in
    let kept : r * (y - out + out) ≤ (r + x) * (y - out) =
      product_kept r n x (y - out) out (rw (← e) k) (net_le fee x) in
    (less, rw (← e) at kept)

-- More input never gets less output from a pool.
pub exact_quote_product_mono :
    (s : Snapshot) (r y fee x x' out out' : ℕ)
    → s.model ≡ constant_product r y fee
    → x ≤ x'
    → exact_quote s x ≡ ok out
    → exact_quote s x' ≡ ok out'
    → out ≤ out'
unfolding exact_quote
exact_quote_product_mono s r y fee x x' out out' e h p q =
    let (pr, _, a) = exact_model_product r y fee x out (ground (arith, e)) in
    let (_, _, b) = exact_model_product r y fee x' out' (ground (arith, e)) in
    let n = net_of fee x in
    let n' = net_of fee x' in rw (a, b) (share_mono r y n n' pr (net_mono fee x x' h))

close_curve-IsValid :
    (r y capacity n : ℕ) (s : Chain) (c : Curve)
    → close_curve r y capacity n s ≡ ok c
    → IsValid c × (c.capacity ≡ capacity)
unfolding close_curve
close_curve-IsValid r y capacity n s c h =
    let (a, _, h1) = Outcome.>>=-eq-ok (ceil_div s.error_fp scale) _ h in
    let (a', _, h2) = Outcome.>>=-eq-ok (as_u64 a) _ h1 in
    let (b, _, h3) = Outcome.>>=-eq-ok (ceil_div y r) _ h2 in
    let (b', _, h4) = Outcome.>>=-eq-ok (add_word u128_mod b 1) _ h3 in
    let (b'', _, h5) = Outcome.>>=-eq-ok (as_u64 b') _ h4 in
    let (_, valid, h6) = Outcome.>>=-eq-ok (validate _) _ h5 in
    let v = validate-IsValid _ valid in (subst IsValid (ground arith) v, ground arith)

pub compile_product-IsValid :
    (r y fee capacity : ℕ) (c : Curve) (m : WorkMeter)
    → (compile_product r y fee capacity m).0 ≡ ok c
    → IsValid c × (c.capacity ≡ capacity)
unfolding compile_product
compile_product-IsValid r y fee capacity c m h =
    let (_, _, h1) = >>=-eq-ok (lift (validate_cp r y fee)) _ m c h in
    let (first, _, h2) = >>=-eq-ok (lift (first_chord r y (1_000_000 - fee) capacity)) _ _ c h1 in
    let ((n, cs), _, h3) = >>=-eq-ok (split_all 15 r y (1_000_000 - fee) 1 first) _ _ c h2 in
    let (s, _, h4) = >>=-eq-ok (chain n 0 cs no_chain) _ _ c h3 in
    close_curve-IsValid r y capacity n s c h4

pub compile_model_of :
    (s : Snapshot) (horizon : ℕ) (c : Curve) (m : WorkMeter)
    → (compile s horizon m).0 ≡ ok c
    → (compile_model s.model s.capacity (min s.capacity horizon) m).0 ≡ ok c
unfolding compile
compile_model_of s horizon c m h = ground arith
