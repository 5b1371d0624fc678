-- ===== src/Settle/Exposure/Floor.antt =====
-- engine/stockmesh/native/src/lib.rs: the conversions to exposure are exact, rounded down once.
use native.Mathlib.Nat.{div-mul-le_self, lt-div-mul-add, mul-le-mul, one-le-pow}
use xtxc.Common.{
  ℕ, zero, suc, ◌+◌, ◌-◌, ◌*◌, ◌/◌, ◌%◌, ◌^◌, ◌≡◌, sym, ap, subst, ◌∙◌, ◌≤◌, ◌<◌, arith, Bool, true,
  not, ◌||◌, ltb, leb, ◌==◌, if◌then◌else◌, Bool-cases, inl, inr,
}
use xtxc.Settle.{Program, ok, err, adapter, need, >>=-eq-ok, need-eq-ok, ok-inj}
use xtxc.Settle.Exposure.{
  ScaledUiAmount, exposure_q32, positive_f64_q32, shift_left, checked_mul, to_u64,
}

checked_mul_eq : (a b x : ℕ) → checked_mul a b ≡ ok x → x ≡ a * b
checked_mul_eq a b x h = elim (Bool-cases (ltb (a * b) (2 ^ 128))) [
  | inl e ↦ ok-inj (sym h ∙ rw e)
  | inr e ↦ absurd (ground arith)
]

fit_eq : (n x : ℕ) → (if ltb n (2 ^ 128) then ok n else err adapter) ≡ ok x → x ≡ n
fit_eq n x h = ground arith

positive_divisor : (scale den : ℕ) → 0 < scale → 0 < den → 0 < scale * den * 10_000
positive_divisor scale den h k = grind arith

nonzero :
    (raw num den bps : ℕ)
    → not (raw == 0 || num == 0 || den == 0 || bps == 0 || ltb 10_000 bps) ≡ true
    → 0 < den
nonzero raw num den bps h = ground arith

to_u64_eq : (n x : ℕ) → to_u64 n ≡ ok x → (x ≡ n) × (x < 2 ^ 64)
to_u64_eq n x h = ground arith

floor_facts : (n d x : ℕ) → 0 < d → x ≡ n / d → (x * d ≤ n) × (n < x * d + d)
floor_facts n d x pos e = rw e (div-mul-le_self n d, lt-div-mul-add pos)

-- The exposure of a positive amount is the exact product of the amount, the multiplier, the ratio and
-- the haircut, rounded down once at the end, and it fits 64 bits.
pub exposure_q32-Floor :
    (s : ScaledUiAmount) (raw_atoms numerator denominator conservative_bps v : ℕ)
    → exposure_q32 s raw_atoms numerator denominator conservative_bps ≡ ok v
    → (v * (10 ^ s.decimals * denominator * 10_000)
        ≤ raw_atoms * s.multiplier_q32 * numerator * conservative_bps)
      × (raw_atoms * s.multiplier_q32 * numerator * conservative_bps
          < v * (10 ^ s.decimals * denominator * 10_000) + 10 ^ s.decimals * denominator * 10_000)
      × (v < 2 ^ 64)
unfolding exposure_q32
exposure_q32-Floor s raw num den bps v h =
    let usable : Bool = not (raw == 0 || num == 0 || den == 0 || bps == 0 || ltb 10_000 bps) in
    let (_, n1, h1) = >>=-eq-ok (need usable adapter) _ h in
    let (scale, e1, h2) =
      >>=-eq-ok (if ltb (10 ^ s.decimals) (2 ^ 128) then ok (10 ^ s.decimals) else err adapter) _
        h1 in
    let (scaled, e2, h3) = >>=-eq-ok (checked_mul scale den) _ h2 in
    let (divisor, e3, h4) = >>=-eq-ok (checked_mul scaled 10_000) _ h3 in
    let (x1, e4, h5) = >>=-eq-ok (checked_mul raw s.multiplier_q32) _ h4 in
    let (x2, e5, h6) = >>=-eq-ok (checked_mul x1 num) _ h5 in
    let (x3, e6, h7) = >>=-eq-ok (checked_mul x2 bps) _ h6 in
    let scale_eq : scale ≡ 10 ^ s.decimals = fit_eq (10 ^ s.decimals) scale e1 in
    let divisor_eq : divisor ≡ 10 ^ s.decimals * den * 10_000 =
      checked_mul_eq scaled 10_000 divisor e3
      ∙ ap (λ t. t * 10_000) (checked_mul_eq scale den scaled e2 ∙ ap (λ t. t * den) scale_eq) in
    let product_eq : x3 ≡ raw * s.multiplier_q32 * num * bps =
      checked_mul_eq x2 bps x3 e6
      ∙ ap (λ t. t * bps)
          (checked_mul_eq x1 num x2 e5
            ∙ ap (λ t. t * num) (checked_mul_eq raw s.multiplier_q32 x1 e4)) in
    let (v_eq, small) = to_u64_eq (x3 / divisor) v h7 in
    let pos : 0 < divisor =
      subst (λ d. 0 < d) (sym divisor_eq)
        (positive_divisor (10 ^ s.decimals) den (one-le-pow s.decimals 10 (omega arith))
          (nonzero raw num den bps (need-eq-ok usable adapter n1))) in
    let (low, high) = floor_facts x3 divisor v pos v_eq in
    (
      subst (λ d. v * d ≤ raw * s.multiplier_q32 * num * bps) divisor_eq
          (subst (λ x. v * divisor ≤ x) product_eq low),
      subst (λ d. raw * s.multiplier_q32 * num * bps < v * d + d) divisor_eq
          (subst (λ x. x < v * divisor + divisor) product_eq high),
      small,
    )

-- A multiple of 2 ^ 64 is no positive number below it, whatever is lost above 128 bits.
no_low_bits : (n : ℕ) → 2 ^ 64 * n % 2 ^ 128 < 2 ^ 64 → 2 ^ 64 * n % 2 ^ 128 ≡ 0
no_low_bits n h = omega arith

split_power : (j k : ℕ) → k ≡ j + 64 → 2 ^ k ≡ 2 ^ 64 * 2 ^ j
split_power zero k h = ap (λ n. 2 ^ n) h
split_power (suc j) zero h = absurd (omega arith)
split_power (suc j) (suc k) h = omega (arith, split_power j k (omega arith))

power-le : (j k : ℕ) → j ≤ k → 2 ^ j ≤ 2 ^ k
power-le zero zero h = omega arith
power-le zero (suc k) h = omega (arith, power-le zero k (omega arith))
power-le (suc j) zero h = absurd (omega arith)
power-le (suc j) (suc k) h = omega (arith, power-le j k (omega arith))

shift_facts :
    (significand shift fixed : ℕ)
    → significand < 2 ^ 53
    → shift_left significand shift ≡ ok fixed
    → 0 < fixed
    → fixed < 2 ^ 64
    → fixed ≡ significand * 2 ^ shift
unfolding shift_left
shift_facts significand shift fixed small h pos fits =
    let value : significand * 2 ^ shift % 2 ^ 128 ≡ fixed = kept in
    elim (Bool-cases (ltb shift 64)) [
      | inl e ↦
          let bound = power-le shift 64 (ground arith) in
          let product = mul-le-mul small_le bound in omega arith
      | inr e ↦
          let split = split_power (shift - 64) shift (ground arith) in
          let whole : significand * 2 ^ shift ≡ 2 ^ 64 * (significand * 2 ^ (shift - 64)) =
            rw split (grind arith) in
          let low = no_low_bits (significand * 2 ^ (shift - 64)) in absurd (lost whole value)
    ]
  where
    kept : significand * 2 ^ shift % 2 ^ 128 ≡ fixed
    kept = ground arith

    small_le : significand ≤ 2 ^ 53
    small_le = omega arith

    lost :
        significand * 2 ^ shift ≡ 2 ^ 64 * (significand * 2 ^ (shift - 64))
        → significand * 2 ^ shift % 2 ^ 128 ≡ fixed
        → ⊥
    lost whole value = omega arith

abbrev scaled_float : ℕ → ℕ → Program ℕ
scaled_float exponent significand =
    if leb 1043 exponent
    then shift_left significand (exponent - 1043)
    else ok (if ltb (1043 - exponent) 128 then significand / 2 ^ (1043 - exponent) else 0)

shift_cases :
    (exponent significand fixed : ℕ)
    → significand < 2 ^ 53
    → scaled_float exponent significand ≡ ok fixed
    → 0 < fixed
    → fixed < 2 ^ 64
    → (1043 ≤ exponent → fixed ≡ significand * 2 ^ (exponent - 1043))
      × (exponent < 1043 → fixed ≡ significand / 2 ^ (1043 - exponent))
shift_cases exponent significand fixed small h pos fits = elim (Bool-cases (leb 1043 exponent)) [
  | inl e ↦
      let moved : shift_left significand (exponent - 1043) ≡ ok fixed = sym (rw e) ∙ h in
      (
        λ up. shift_facts significand (exponent - 1043) fixed small moved pos fits,
        λ down. absurd (ground arith),
      )
  | inr e ↦
      let moved : ok (if ltb (1043 - exponent) 128 then significand / 2 ^ (1043 - exponent) else 0)
          ≡ ok fixed =
        sym (rw e) ∙ h in
      (
        λ up. absurd (ground arith),
        λ down. elim (Bool-cases (ltb (1043 - exponent) 128)) [
          | inl near ↦ sym (ok-inj (sym (rw near) ∙ moved))
          | inr far ↦
              let nothing : 0 ≡ fixed = ok-inj (sym (rw far) ∙ moved) in absurd (omega arith)
        ],
      )
]

-- A positive float is read as its value times 2 ^ 32, rounded down: the shift to the left never loses
-- a bit of an accepted value, although the bits above 128 are dropped, and the shift to the right
-- rounds down.
pub positive_f64_q32-Floor :
    (bits v : ℕ)
    → positive_f64_q32 bits ≡ ok v
    → (1043 ≤ bits / 2 ^ 52 % 2 ^ 11
        → v ≡ (2 ^ 52 + bits % 2 ^ 52) * 2 ^ (bits / 2 ^ 52 % 2 ^ 11 - 1043))
      × (bits / 2 ^ 52 % 2 ^ 11 < 1043
          → v ≡ (2 ^ 52 + bits % 2 ^ 52) / 2 ^ (1043 - bits / 2 ^ 52 % 2 ^ 11))
      × (0 < v)
unfolding positive_f64_q32
positive_f64_q32-Floor bits v h =
    let exponent : ℕ = bits / 2 ^ 52 % 2 ^ 11 in
    let significand : ℕ = 2 ^ 52 + bits % 2 ^ 52 in
    let (_, _, h1) = >>=-eq-ok (need (ltb bits (2 ^ 63)) adapter) _ h in
    let (_, _, h2) = >>=-eq-ok (need (not (exponent == 0 || exponent == 2047)) adapter) _ h1 in
    let (fixed, e, h3) = >>=-eq-ok (scaled_float exponent significand) _ h2 in
    let (_, n, h4) = >>=-eq-ok (need (not (fixed == 0)) adapter) _ h3 in
    let (v_eq, fits) = to_u64_eq fixed v h4 in
    let pos : 0 < fixed = positive fixed (need-eq-ok (not (fixed == 0)) adapter n) in
    let (up, down) =
      shift_cases exponent significand fixed (omega arith) e pos
        (subst (λ t. t < 2 ^ 64) v_eq fits) in
    (λ k. v_eq ∙ up k, λ k. v_eq ∙ down k, subst (λ t. 0 < t) (sym v_eq) pos)
  where
    positive : (n : ℕ) → not (n == 0) ≡ true → 0 < n
    positive n k = ground arith
