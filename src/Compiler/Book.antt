-- ===== src/Compiler/Book.antt =====
-- engine/stockmesh/compiler/mod.rs: the curve that `compile` makes of an order book quotes as the
-- book itself does.
use native.Mathlib.Nat.{zero-add}
use xtxc.Common.{
  ◌∙◌, ℕ, zero, suc, ◌+◌, ◌-◌, ◌≤◌, ◌<◌, min, ◌≡◌, refl, ap, sym, List, [], ◌∷◌, ◌++◌, arith, take,
  length, true, ◌==◌, if◌then◌else◌, Bool-cases, inl, inr,
}
use xtxc.Common.Outcome
use xtxc.Common.Outcome.{
  u32_mod, Outcome, ok, err, Error, max_atoms, max_rate, scale, as_u64, u64_mod, invalid_curve,
}
use xtxc.Common.Meter.{WorkMeter, charge, lift, >>=-eq-ok}
use xtxc.Compiler.{
  Segment, Curve, Snapshot, book, book_curve, pad, empty_curve, sum_capacity, validate, quote,
  exact_quote, exact_model,
}
use xtxc.Compiler.Bands.{area, total, Falls, sum_capacity_lem, sum_capacity-total, area-zero}
use xtxc.Compiler.Quote.{IsValid, validate-IsValid, quote-area}
use xtxc.Compiler.Compile.{fill_bands, compile_book, compile, compile_model, check_book}

-- The levels up to the first `left` atoms.
cut : ℕ → List Segment → List Segment
cut left [] = []
cut left (s ∷ ss) =
    let rest =
      record s { input_capacity = min left s.input_capacity }
      ∷ cut (left - min left s.input_capacity) ss in
    if left == 0 then [] else rest

fill_bands-cut :
    (left : ℕ) (ss bs : List Segment) (m : WorkMeter)
    → (fill_bands left ss m).0 ≡ ok bs
    → bs ≡ cut left ss
unfolding fill_bands charge cut
fill_bands-cut left [] bs m e = ground arith
fill_bands-cut left (s ∷ ss) bs m e =
    let (_, charged, e') = >>=-eq-ok (charge 1) _ m bs e in
    elim (Bool-cases (left == 0)) [
      | inl none_left ↦ ground arith
      | inr more ↦
          let (rest, er, e'') =
            >>=-eq-ok (fill_bands (left - min left s.input_capacity) ss) _ _ bs (rw more at e') in
          let ih = fill_bands-cut (left - min left s.input_capacity) ss rest _ er in
          ground (arith, ih)
    ]

cut-Falls : (left prev : ℕ) (ss : List Segment) → Falls prev ss → Falls prev (cut left ss)
unfolding cut
cut-Falls left prev [] f = tt
cut-Falls left prev (s ∷ ss) f =
    ground (arith, cut-Falls (left - min left s.input_capacity) s.marginal_q32 ss f.2)

total-cut : (left : ℕ) (ss : List Segment) → left ≤ total ss → total (cut left ss) ≡ left
unfolding cut total
total-cut left [] h = omega arith
total-cut left (s ∷ ss) h = ground (arith, total-cut (left - min left s.input_capacity) ss)

length-cut : (left : ℕ) (ss : List Segment) → length (cut left ss) ≤ length ss
unfolding cut
length-cut left [] = omega arith
length-cut left (s ∷ ss) = ground (arith, length-cut (left - min left s.input_capacity) ss)

area-cut : (left x : ℕ) (ss : List Segment) → x ≤ left → area x (cut left ss) ≡ area x ss
unfolding cut area
area-cut left x [] h = refl
area-cut left x (s ∷ ss) h = ground (
  arith,
  area-zero ss,
  area-cut (left - min left s.input_capacity) (x - min x s.input_capacity) ss,
)

-- As many units as there are levels are enough.
fill_bands_runs :
    (left : ℕ) (ss : List Segment) (m : WorkMeter)
    → m.used + length ss ≤ m.limit
    → m.limit < u32_mod
    → (fill_bands left ss m).0 ≡ ok (cut left ss)
unfolding fill_bands charge cut
fill_bands_runs left [] m h k = refl
fill_bands_runs left (s ∷ ss) m h k =
    ground (
      arith,
      fill_bands_runs (left - min left s.input_capacity) ss (record m { used = m.used + 1 }),
    )

take-pad : (bs : List Segment) → take (length bs) (pad bs) ≡ bs
take-pad bs = take_own bs _
  where
    take_own : (xs ys : List Segment) → take (length xs) (xs ++ ys) ≡ xs
    take_own [] ys = refl
    take_own (x ∷ xs) ys = ap (◌∷◌ x) (take_own xs ys)

pub length-take-le : (n : ℕ) (ss : List Segment) → length (take n ss) ≤ n
length-take-le zero ss = omega arith
length-take-le (suc n) [] = omega arith
length-take-le (suc n) (s ∷ ss) = omega (arith, length-take-le n ss)

check_book-IsValid :
    (available : ℕ) (levels : List Segment) (len : ℕ)
    → check_book available levels len ≡ ok tt
    → IsValid (book_curve levels len (total (take len levels)))
      × (available ≤ total (take len levels))
unfolding check_book
check_book-IsValid available levels len h =
    let (t, e, h') = Outcome.>>=-eq-ok (sum_capacity 0 (take len levels)) _ h in
    let (_, valid, r) = Outcome.>>=-eq-ok (validate (book_curve levels len t)) _ h' in
    let sum : t ≡ total (take len levels) =
      sum_capacity-total 0 (take len levels) t e ∙ zero-add _ in
    rw (← sum) (validate-IsValid _ valid, ground (arith, Outcome.reject-eq-ok _ _ r))

cut_pos : (left : ℕ) (ss : List Segment) → 0 < left → left ≤ total ss → 0 < length (cut left ss)
unfolding cut total
cut_pos left [] h k = omega arith
cut_pos left (s ∷ ss) h k = ground arith

-- What `compile` gives for a book, once its checks have passed.
abbrev cut_curve : ℕ → List Segment → ℕ → Curve
cut_curve capacity levels len = record empty_curve {
  segments = pad (cut capacity (take len levels));
  len = length (cut capacity (take len levels));
  capacity = capacity;
}

module _ (levels : List Segment) (len capacity : ℕ)
    (v : IsValid (book_curve levels len (total (take len levels)))) where
  cut_curve-IsValid :
      0 < capacity → capacity ≤ total (take len levels) → IsValid (cut_curve capacity levels len)
  unfolding book_curve
  cut_curve-IsValid h k =
      let cs = cut capacity (take len levels) in
      record {
        falls = rw (take-pad cs) (cut-Falls capacity max_rate (take len levels) v.falls);
        capacity_total = rw (take-pad cs, total-cut capacity (take len levels) k);
        capacity_le = omega (arith, v.capacity_le);
        len_le =
            omega
              (arith, length-cut capacity (take len levels), length-take-le len levels, v.len_le);
        len_pos = cut_pos capacity (take len levels) h k;
      }

  cut_curve-quote :
      (x : ℕ)
      → 0 < capacity
      → capacity ≤ total (take len levels)
      → x ≤ capacity
      → quote (cut_curve capacity levels len) x ≡ exact_model (book levels len) x
  unfolding exact_model book_curve
  cut_curve-quote x h k l =
      let ss = take len levels in
      let sum : sum_capacity 0 ss ≡ ok (total ss) =
        sum_capacity_lem 0 ss (omega (arith, v.capacity_le)) ∙ ap ok (zero-add _) in
      rw
        (
          quote-area (cut_curve capacity levels len) x (cut_curve-IsValid h k) l,
          take-pad (cut capacity ss),
          area-cut capacity x ss l,
          sum,
        )
        (sym (quote-area _ x v (omega arith)))

compile_book-cut :
    (available : ℕ) (levels : List Segment) (len capacity : ℕ) (c : Curve) (m : WorkMeter)
    → (compile_book available levels len capacity m).0 ≡ ok c
    → (check_book available levels len ≡ ok tt) × (c ≡ cut_curve capacity levels len)
unfolding compile_book
compile_book-cut available levels len capacity c m e =
    let (_, checked, e') = >>=-eq-ok (lift (check_book available levels len)) _ m c e in
    let (bs, filled, e'') = >>=-eq-ok (fill_bands capacity (take len levels)) _ _ c e' in
    let same = fill_bands-cut capacity (take len levels) bs _ filled in (checked, ground arith)

-- The work that `compile` does on a book never fails for want of budget, if the budget holds one
-- unit for each level.
compile_book_runs :
    (available : ℕ) (levels : List Segment) (len capacity : ℕ) (m : WorkMeter)
    → check_book available levels len ≡ ok tt
    → m.used + length (take len levels) ≤ m.limit
    → m.limit < u32_mod
    → (compile_book available levels len capacity m).0 ≡ ok (cut_curve capacity levels len)
unfolding compile_book
compile_book_runs available levels len capacity m checked h k =
    ground (arith, fill_bands_runs capacity (take len levels) m h k)

-- The checks that `compile` makes before it looks at the model, and the book's own.
pub record Admits (s : Snapshot) (horizon : ℕ) (levels : List Segment) (len : ℕ) : Type 0 where
  pub atomic : s.atomic ≡ true
  pub enabled : s.enabled ≡ true
  pub capacity_pos : 0 < s.capacity
  pub capacity_le : s.capacity ≤ max_atoms
  pub horizon_pos : 0 < horizon
  pub horizon_le : horizon ≤ max_atoms
  pub covered : check_book s.capacity levels len ≡ ok tt

compile-book :
    (s : Snapshot) (horizon : ℕ) (levels : List Segment) (len : ℕ) (c : Curve) (m : WorkMeter)
    → s.model ≡ book levels len
    → (compile s horizon m).0 ≡ ok c
    → Admits s horizon levels len × (c ≡ cut_curve (min s.capacity horizon) levels len)
unfolding compile compile_model
compile-book s horizon levels len c m e h =
    ground (arith, e, compile_book-cut s.capacity levels len (min s.capacity horizon) c m)

-- A curve compiled from a book is valid, reaches as far as the snapshot and the horizon allow, has
-- no approximation error, and quotes every amount up to its capacity exactly as the book itself.
pub compile_book_exact :
    (s : Snapshot) (horizon : ℕ) (levels : List Segment) (len : ℕ) (c : Curve) (m : WorkMeter)
    → s.model ≡ book levels len
    → (compile s horizon m).0 ≡ ok c
    → IsValid c
      × (c.capacity ≡ min s.capacity horizon)
      × (c.upper_error_atoms ≡ 0)
      × (c.lower_error_atoms ≡ 0)
      × ((x : ℕ) → x ≤ c.capacity → quote c x ≡ exact_quote s x)
unfolding exact_quote
compile_book_exact s horizon levels len c m e h =
    let (a, same) = compile-book s horizon levels len c m e h in
    let (v, covered) = check_book-IsValid s.capacity levels len a.covered in
    let reach = min s.capacity horizon in
    let pos : 0 < reach = omega (arith, a.capacity_pos, a.horizon_pos) in
    let fits : reach ≤ total (take len levels) = omega arith in
    rw same (
      cut_curve-IsValid levels len reach v pos fits,
      refl,
      refl,
      refl,
      λ x k. rw e (
          let q = cut_curve-quote levels len reach v x pos fits k in
          ground (arith, q, a.capacity_le)),
    )

-- `compile` gives a curve for every book that passes the checks, if the budget has a unit for each
-- level.
pub compile_book_total :
    (s : Snapshot) (horizon : ℕ) (levels : List Segment) (len : ℕ) (m : WorkMeter)
    → s.model ≡ book levels len
    → Admits s horizon levels len
    → m.used + length (take len levels) ≤ m.limit
    → m.limit < u32_mod
    → (c : Curve) × ((compile s horizon m).0 ≡ ok c)
unfolding compile compile_model
compile_book_total s horizon levels len m e a h k = (
  cut_curve (min s.capacity horizon) levels len,
  ground
      (arith, e, compile_book_runs s.capacity levels len (min s.capacity horizon) m a.covered h k),
)
