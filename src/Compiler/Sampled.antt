-- ===== src/Compiler/Sampled.antt =====
-- engine/stockmesh/compiler/mod.rs: that the boundaries of the chords are sampled from the pool's own curve.
use xtxc.Common.{
  ℕ, zero, suc, ◌+◌, ◌*◌, ◌/◌, ◌%◌, ◌≤◌, ◌<◌, ◌≡◌, sym, ap, subst, ◌∙◌, arith, List, [], ◌∷◌,
  Option, none, some,
}
use xtxc.Common.Outcome
use xtxc.Common.Outcome.{
  Outcome, ok, err, panic, invalid_curve, as_u64, u64_mod, ceil_div, scale, add_word, sub_word,
  mul_word, div_word, u128_mod, index, reject, max_rate, max_segments,
}
use xtxc.Common.Meter
use xtxc.Common.Meter.{charge, WorkMeter, >>=-eq-ok, lift, Metered, pure}
use xtxc.Compiler.Chords.{
  cp_fp, derivative_upper, Chords, insert_at, gap_of, split, split_all, pick,
}

-- `v` is at most what the pool pays for `x`, as a fraction of 2 ^ 32 and before any rounding.
abbrev pub Pays : ℕ → ℕ → ℕ → ℕ → ℕ → Type 0
Pays r y f x v = v * (r * 1_000_000 + x * f) ≤ y * x * f * scale

pub le_div_keeps : (n d : ℕ) → 0 < d → n / d * d ≤ n
le_div_keeps n d p = grind arith

sum_le :
    (a rest b d n q : ℕ)
    → a * d + rest ≡ n
    → b * d ≤ rest * scale
    → q ≡ a * scale + b
    → q * d ≤ n * scale
sum_le a rest b d n q whole part e = rw e (omega arith)

parts_le : (n d q : ℕ) → 0 < d → q ≡ n / d * scale + n % d * scale / d → q * d ≤ n * scale
parts_le n d q p e =
    sum_le (n / d) (n % d) (n % d * scale / d) d n q (omega arith)
      (le_div_keeps (n % d * scale) d p) e

pub cp_fp-Pays : (r y f x v : ℕ) → cp_fp r y f x ≡ ok v → Pays r y f x v
unfolding cp_fp
cp_fp-Pays r y f x v h =
    let d : ℕ = r * 1_000_000 + x * f in
    let (n, e1, h1) = Outcome.>>=-eq-ok (mul_word u128_mod (y * x) f) _ h in
    let (q, e2, h2) = Outcome.>>=-eq-ok (div_word n d) _ h1 in
    let (whole, e3, h3) = Outcome.>>=-eq-ok (mul_word u128_mod q scale) _ h2 in
    let (part, e4, h4) = Outcome.>>=-eq-ok (mul_word u128_mod (n % d) scale) _ h3 in
    finish n q whole part e1 e2 e3 e4 h4
  where
    finish :
        (n q whole part : ℕ)
        → mul_word u128_mod (y * x) f ≡ ok n
        → div_word n (r * 1_000_000 + x * f) ≡ ok q
        → mul_word u128_mod q scale ≡ ok whole
        → mul_word u128_mod (n % (r * 1_000_000 + x * f)) scale ≡ ok part
        → add_word u128_mod whole (part / (r * 1_000_000 + x * f)) ≡ ok v
        → Pays r y f x v
    finish n q whole part e1 e2 e3 e4 h4 =
        let d = r * 1_000_000 + x * f in
        let n_eq : y * x * f ≡ n = ground arith in
        let positive : 0 < d = ground arith in
        let q_eq : n / d ≡ q = ground arith in
        let whole_eq : q * scale ≡ whole = ground arith in
        let part_eq : n % d * scale ≡ part = ground arith in
        let v_eq : whole + part / d ≡ v = ground arith in
        let value : v ≡ n / d * scale + n % d * scale / d =
          sym v_eq
          ∙ ap (λ k. k + part / d) (sym whole_eq ∙ ap (λ k. k * scale) (sym q_eq))
          ∙ ap (λ k. n / d * scale + k / d) (sym part_eq) in
        subst (λ k. v * d ≤ k * scale) (sym n_eq) (parts_le n d v positive value)

-- The pool pays at least the value at each boundary.
abbrev pub Sampled : ℕ → ℕ → ℕ → List ℕ → List ℕ → Type 0
Sampled r y f [] [] = Unit
Sampled r y f [] (v ∷ vs) = ⊥
Sampled r y f (b ∷ bs) [] = ⊥
Sampled r y f (b ∷ bs) (v ∷ vs) = Pays r y f b v × Sampled r y f bs vs

insert_at-Sampled :
    (r y f : ℕ) (bs vs : List ℕ) (k b v : ℕ)
    → Sampled r y f bs vs
    → Pays r y f b v
    → Sampled r y f (insert_at k b bs) (insert_at k v vs)
insert_at-Sampled r y f bs vs zero b v s p = (p, s)
insert_at-Sampled r y f [] [] (suc k) b v s p = (p, tt)
insert_at-Sampled r y f [] (w ∷ ws) (suc k) b v s p = absurd s
insert_at-Sampled r y f (a ∷ bs) [] (suc k) b v s p = absurd s
insert_at-Sampled r y f (a ∷ bs) (w ∷ ws) (suc k) b v s p =
    (s.0, insert_at-Sampled r y f bs ws k b v s.1 p)

pub index-Sampled :
    (r y f : ℕ) (bs vs : List ℕ) (i b v : ℕ)
    → Sampled r y f bs vs
    → index bs i ≡ ok b
    → index vs i ≡ ok v
    → Pays r y f b v
index-Sampled r y f [] vs i b v s g h = cc
index-Sampled r y f (a ∷ bs) [] i b v s g h = absurd s
index-Sampled r y f (a ∷ bs) (w ∷ ws) zero b v s g h =
    subst (λ n. Pays r y f n v) (Outcome.ok-inj g)
      (subst (λ n. Pays r y f a n) (Outcome.ok-inj h) s.0)
index-Sampled r y f (a ∷ bs) (w ∷ ws) (suc i) b v s g h = index-Sampled r y f bs ws i b v s.1 g h

abbrev pub IsSampled : ℕ → ℕ → ℕ → Chords → Type 0
IsSampled r y f c = Sampled r y f c.boundaries c.values × (index c.boundaries 0 ≡ ok 0)

head_kept : (bs : List ℕ) (i b : ℕ) → index bs 0 ≡ ok 0 → index (insert_at (suc i) b bs) 0 ≡ ok 0
head_kept [] i b h = cc
head_kept (x ∷ bs) i b h = h

abbrev go_on : ℕ → ℕ → ℕ → ℕ → ℕ → Chords → Option ℕ → Metered (ℕ × Chords)
go_on rounds r y f n c best = elim best [
  | none ↦ pure (n, c)
  | some i ↦ Meter.◌>>=◌ (lift (split r y f i c)) λ c2. split_all rounds r y f (suc n) c2
]

split-IsSampled :
    (r y f i : ℕ) (c c' : Chords) → split r y f i c ≡ ok c' → IsSampled r y f c → IsSampled r y f c'
unfolding split
split-IsSampled r y f i c c' h s =
    let (a, _, h1) = Outcome.>>=-eq-ok (index c.boundaries i) _ h in
    let (b, _, h2) = Outcome.>>=-eq-ok (index c.boundaries (suc i)) _ h1 in
    let (width, _, h3) = Outcome.>>=-eq-ok (sub_word b a) _ h2 in
    let (middle, _, h4) = Outcome.>>=-eq-ok (add_word u64_mod a (width / 2)) _ h3 in
    let (value, e5, h5) = Outcome.>>=-eq-ok (cp_fp r y f middle) _ h4 in
    let (tangent, _, h6) = Outcome.>>=-eq-ok (derivative_upper r y f middle) _ h5 in
    let next : Chords = record c {
      boundaries = insert_at (suc i) middle c.boundaries;
      values = insert_at (suc i) value c.values;
      tangents = insert_at (suc i) tangent c.tangents;
    } in
    let (left, _, h7) = Outcome.>>=-eq-ok (gap_of next i) _ h6 in
    let (right, _, h8) = Outcome.>>=-eq-ok (gap_of next (suc i)) _ h7 in
    subst (IsSampled r y f) (Outcome.ok-inj h8) (
      insert_at-Sampled r y f c.boundaries c.values (suc i) middle value s.0
          (cp_fp-Pays r y f middle value e5),
      head_kept c.boundaries i middle s.1,
    )

pub split_all-IsSampled :
    (rounds r y f n : ℕ) (c : Chords) (m : WorkMeter) (n' : ℕ) (c' : Chords)
    → (split_all rounds r y f n c m).0 ≡ ok (n', c')
    → IsSampled r y f c
    → IsSampled r y f c'
unfolding split_all
split_all-IsSampled zero r y f n c m n' c' h s =
    subst (IsSampled r y f) (ap (λ (p : ℕ × Chords). p.1) (Outcome.ok-inj h)) s
split_all-IsSampled (suc rounds) r y f n c m n' c' h s =
    let (best, _, h1) = >>=-eq-ok (pick n 0 c none 0) _ m (n', c') h in
    further best _ (λ c2 m2 g e. split_all-IsSampled rounds r y f (suc n) c2 m2 n' c' g e) h1
  where
    further :
        (best : Option ℕ) (m : WorkMeter)
        → ((c2 : Chords) (m2 : WorkMeter)
            → (split_all rounds r y f (suc n) c2 m2).0 ≡ ok (n', c')
            → IsSampled r y f c2
            → IsSampled r y f c')
        → (go_on rounds r y f n c best m).0 ≡ ok (n', c')
        → IsSampled r y f c'
    further none m rest g =
        subst (IsSampled r y f) (ap (λ (p : ℕ × Chords). p.1) (Outcome.ok-inj g)) s
    further (some i) m rest g =
        let (c2, e, g2) = >>=-eq-ok (lift (split r y f i c)) _ m (n', c') g in
        rest c2 _ g2 (split-IsSampled r y f i c c2 e s)
