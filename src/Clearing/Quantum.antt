-- ===== src/Clearing/Quantum.antt =====
-- engine/stockmesh/clearing/mod.rs: the quantum of a fold is a common multiple of its prices.
use xtxc.Common.{
  ℕ, zero, suc, ◌+◌, ◌*◌, ◌/◌, ◌%◌, ◌≡◌, refl, sym, ap, ◌∙◌, ◌<◌, inl, inr, arith, List, [], ◌∷◌,
  All,
}
use xtxc.Common.Outcome.{ok, Outcome-cases, div_word}
use xtxc.Clearing.{gcd, gcd_loop}
use xtxc.Clearing.Fold.{quantum_of}

abbrev pub Divides : ℕ → ℕ → Type 0
Divides d n = (k : ℕ) × (n ≡ k * d)

Divides-mul : (d n m : ℕ) → Divides d n → Divides d (m * n)
Divides-mul d n m (k, e) = (m * k, ground arith)

Divides-combine : (d q b r a : ℕ) → a ≡ q * b + r → Divides d b → Divides d r → Divides d a
Divides-combine d q b r a h (k, e) (j, f) = (q * k + j, ground arith)

gcd_loop-Divides :
    (fuel a b : ℕ) → b < fuel → Divides (gcd_loop fuel a b) a × Divides (gcd_loop fuel a b) b
unfolding gcd_loop
gcd_loop-Divides zero a b h = ground arith
gcd_loop-Divides (suc fuel) a zero h = ((1, ground arith), (0, ground arith))
gcd_loop-Divides (suc fuel) a (suc b) h =
    let (x, y) = gcd_loop-Divides fuel (suc b) (a % suc b) (ground arith) in
    (Divides-combine _ (a / suc b) (suc b) (a % suc b) a (ground arith) x y, x)

pub quotient : (q g u : ℕ) → 0 < g → q ≡ u * g → q / g ≡ u
quotient q g u h e = grind arith

exchange : (u w g : ℕ) → u * (w * g) ≡ w * (u * g)
exchange u w g = grind arith

quotient_step : (q p g : ℕ) → 0 < g → Divides g q → Divides g p → Divides q (q / g * p)
quotient_step q p g h (u, e) (w, f) =
    let k = quotient q g u h e in
    (w, ap (λ x. x * p) k ∙ ap (λ x. u * x) f ∙ exchange u w g ∙ ap (λ x. w * x) (sym e))

positive : (g n : ℕ) → Divides g n → 0 < n → 0 < g
positive zero n (k, e) h = ground arith
positive (suc g) n d h = ground arith

quotient_pos : (q g : ℕ) → 0 < q → 0 < g → Divides g q → 0 < q / g
quotient_pos q g z h (zero, e) = ground arith
quotient_pos q g z h (suc u, e) = ground (arith, quotient q g (suc u) h e)

pub product_pos : (a b : ℕ) → 0 < a → 0 < b → 0 < a * b
product_pos a b h k = grind arith

Divides-trans : (a b c : ℕ) → Divides a b → Divides b c → Divides a c
Divides-trans a b c (k, e) (j, f) = (j * k, grind arith)

pub quantum_of-All :
    (ps : List ℕ) (quantum q : ℕ)
    → 0 < quantum
    → quantum_of ps quantum ≡ ok q
    → Divides quantum q × All (λ p. (0 < p) × Divides p q) ps × (0 < q)
unfolding quantum_of gcd
quantum_of-All [] quantum q z h = ((1, ground arith), tt, ground arith)
quantum_of-All (p ∷ ps) quantum q z h = elim (Outcome-cases (div_word quantum (gcd quantum p))) [
  | inl (part, e) ↦
      let (d, f) = gcd_loop-Divides (suc p) quantum p (ground arith) in
      let more : 0 < gcd quantum p = positive (gcd quantum p) quantum d z in
      let grown = quotient_step quantum p (gcd quantum p) more d f in
      let price : 0 < part * p =
        product_pos part p (ground (arith, quotient_pos quantum (gcd quantum p) z more d))
          (ground arith) in
      let (up, others, above) = quantum_of-All ps (part * p) q price (ground arith) in
      (
        Divides-trans quantum (part * p) q (ground arith) up,
        ((ground arith, Divides-trans p (part * p) q (part, refl) up), others),
        above,
      )
  | inr (inl (x, e)) ↦ ground arith
  | inr (inr e) ↦ ground arith
]
