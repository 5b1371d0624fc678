-- ===== src/Common/Outcome.antt =====
-- lib.rs: the error type, and what a call of the core gives. The crate is built with overflow
-- checks, so that arithmetic out of range and an index out of range abort the call: `panic`.
use Prim.Native.Nat.{ℕ, zero, suc, ◌+◌, ◌-◌, ◌*◌, ◌/◌, ◌%◌, ◌^◌}
use mathlib.Core.Path.{◌≡◌, refl}
use mathlib.Core.Logic.{◌⊎◌, inl, inr}
use mathlib.Core.Bool.{Bool, true, false}
use mathlib.Core.List.{List, [], ◌∷◌}
use mathlib.Core.Option.{Option, none, some}
use native.Mathlib.Omega.{arith}
use xtxc.Common.Tests.{ltb, ◌==◌, if◌then◌else◌}

pub data Error : Type 0 where
  invalid_amount invalid_curve arithmetic capacity bounds work_limit stale expired identity
        aliased_liquidity unsupported venue_unavailable fatal_cpi balance_invariant min_out
        queue_full duplicate owner_limit invalid_ticket :
      Error

pub data Outcome {ℓ} (A : Type ℓ) : Type ℓ where
  ok : A → Outcome A
  err : Error → Outcome A
  panic : Outcome A

-- `?`: what follows an error or an abort is not run.
infixl 5 ◌>>=◌ ◌>>◌
abbrev pub ◌>>=◌ {ℓ κ} : {A : Type ℓ} {B : Type κ} → Outcome A → (A → Outcome B) → Outcome B
panic >>= next = panic
err e >>= next = err e
ok a >>= next = next a

abbrev pub ◌>>◌ {κ} : {B : Type κ} → Outcome (Unit {0}) → Outcome B → Outcome B
test >> next = test >>= λ done. next

-- `if test { return Err(e) }`
abbrev pub reject : Bool → Error → Outcome (Unit {0})
reject true e = err e
reject false e = ok tt

-- `option.ok_or(e)`
abbrev pub ok_or {ℓ} : {A : Type ℓ} → Option A → Error → Outcome A
ok_or none e = err e
ok_or (some a) e = ok a

-- The largest atomic amount, the largest marginal rate and the fixed-point scale.
abbrev pub max_atoms : ℕ
max_atoms = 100_000_000_000_000

abbrev pub max_rate : ℕ
max_rate = 2 ^ 48

abbrev pub scale : ℕ
scale = 2 ^ 32

abbrev pub max_edges : ℕ
max_edges = 8

abbrev pub max_segments : ℕ
max_segments = 16

abbrev pub max_legs : ℕ
max_legs = 4

abbrev pub max_reflows : ℕ
max_reflows = 3

abbrev pub u32_mod : ℕ
u32_mod = 2 ^ 32

abbrev pub u64_mod : ℕ
u64_mod = 2 ^ 64

abbrev pub u128_mod : ℕ
u128_mod = 2 ^ 128

-- `a.checked_add(b).ok_or(e)` on a word below `modulus`.
abbrev pub checked_add : ℕ → ℕ → ℕ → Error → Outcome ℕ
checked_add modulus a b e = if ltb (a + b) modulus then ok (a + b) else err e

-- `a.checked_sub(b).ok_or(e)`
abbrev pub checked_sub : ℕ → ℕ → Error → Outcome ℕ
checked_sub a b e = if ltb a b then err e else ok (a - b)

-- Plain `+`, `*` and `-`, which abort out of range. The product of two u64 fits u128 and is
-- written `*` where the source widens both factors first.
abbrev pub add_word : ℕ → ℕ → ℕ → Outcome ℕ
add_word modulus a b = if ltb (a + b) modulus then ok (a + b) else panic

abbrev pub mul_word : ℕ → ℕ → ℕ → Outcome ℕ
mul_word modulus a b = if ltb (a * b) modulus then ok (a * b) else panic

abbrev pub sub_word : ℕ → ℕ → Outcome ℕ
sub_word a b = if ltb a b then panic else ok (a - b)

-- Plain `/`, which aborts on a divisor of zero.
abbrev pub div_word : ℕ → ℕ → Outcome ℕ
div_word a b = if b == 0 then panic else ok (a / b)

-- `array[i]`
abbrev pub index {ℓ} : {A : Type ℓ} → List A → ℕ → Outcome A
index [] i = panic
index (x ∷ xs) zero = ok x
index (x ∷ xs) (suc i) = index xs i

unfoldable pub as_u64 : ℕ → Outcome ℕ
as_u64 n = if ltb n u64_mod then ok n else err arithmetic

unfoldable pub ceil_div : ℕ → ℕ → Outcome ℕ
ceil_div n d = if d == 0 then err arithmetic else ok (n / d + (if n % d == 0 then 0 else 1))

pub ok-inj {ℓ} : {A : Type ℓ} {a b : A} → ok a ≡ ok b → a ≡ b
ok-inj h = cc

pub Outcome-cases {ℓ} :
    {A : Type ℓ} (m : Outcome A)
    → ((a : A) × (m ≡ ok a)) ⊎ (((e : Error) × (m ≡ err e)) ⊎ (m ≡ panic))
Outcome-cases (ok a) = inl (a, refl)
Outcome-cases (err e) = inr (inl (e, refl))
Outcome-cases panic = inr (inr refl)

-- Inversion of a successful bind.
module _ {ℓ κ} {A : Type ℓ} {B : Type κ} where
  pub >>=-eq-ok :
      (first : Outcome A) (next : A → Outcome B) {b : B}
      → (first >>= next) ≡ ok b
      → (a : A) × (first ≡ ok a) × (next a ≡ ok b)
  >>=-eq-ok panic next h = cc
  >>=-eq-ok (err e) next h = cc
  >>=-eq-ok (ok a) next h = (a, refl, h)

pub reject-eq-ok : (b : Bool) (e : Error) {u : Unit {0}} → reject b e ≡ ok u → b ≡ false
reject-eq-ok b e h = ground arith
