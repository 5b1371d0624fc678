-- ===== src/Common/Meter.antt =====
-- lib.rs: the operation budget, and calls that are charged to one. The meter comes back with an
-- error too, since a caller may go on after it.
use Prim.Native.Nat.{ℕ, ◌+◌}
use mathlib.Core.Path.{◌≡◌, refl}
use mathlib.Core.Bool.{not, ◌&&◌}
use xtxc.Common.Tests.{ltb, if◌then◌else◌}
use xtxc.Common.Outcome.{Error, work_limit, Outcome, ok, err, panic, u32_mod}

pub record WorkMeter : Type 0 where
  pub used : ℕ
  pub limit : ℕ

-- `WorkMeter::new`
unfoldable pub new : ℕ → WorkMeter
new limit = record { used = 0; limit = limit }

abbrev pub Metered {ℓ} : Type ℓ → Type ℓ
Metered A = WorkMeter → Outcome A × WorkMeter

unfoldable pub charge : ℕ → Metered (Unit {0})
charge units m =
    if ltb (m.used + units) u32_mod && not (ltb m.limit (m.used + units))
    then (ok tt, record m { used = m.used + units })
    else (err work_limit, m)

-- What follows a call that has ended so, with the meter that it left.
abbrev pub resume {ℓ κ} :
    {A : Type ℓ} {B : Type κ} → (A → Metered B) → Outcome A → WorkMeter → Outcome B × WorkMeter
resume f (ok a) m = f a m
resume f (err e) m = (err e, m)
resume f panic m = (panic, m)

infixl 5 ◌>>=◌ ◌>>◌
abbrev pub ◌>>=◌ {ℓ κ} : {A : Type ℓ} {B : Type κ} → Metered A → (A → Metered B) → Metered B
◌>>=◌ c f m = resume f (c m).0 (c m).1

abbrev pub ◌>>◌ {ℓ} : {B : Type ℓ} → Metered (Unit {0}) → Metered B → Metered B
c >> k = c >>= λ _. k

-- A step that charges nothing.
abbrev pub lift {ℓ} : {A : Type ℓ} → Outcome A → Metered A
lift r m = (r, m)

abbrev pub pure {ℓ} : {A : Type ℓ} → A → Metered A
pure a m = (ok a, m)

abbrev pub fail {ℓ} : {A : Type ℓ} → Error → Metered A
fail e m = (err e, m)

-- Inversion of a successful bind.
module _ {ℓ κ} {A : Type ℓ} {B : Type κ} where
  bind_cases :
      (r : Outcome A) (m : WorkMeter) (f : A → Metered B) (b : B)
      → (resume f r m).0 ≡ ok b
      → (a : A) × (r ≡ ok a) × ((f a m).0 ≡ ok b)
  bind_cases (ok a) m f b h = (a, refl, h)
  bind_cases (err e) m f b h = cc
  bind_cases panic m f b h = cc

  pub >>=-eq-ok :
      (c : Metered A) (f : A → Metered B) (m : WorkMeter) (b : B)
      → ((c >>= f) m).0 ≡ ok b
      → (a : A) × ((c m).0 ≡ ok a) × ((f a (c m).1).0 ≡ ok b)
  >>=-eq-ok c f m b h = bind_cases (c m).0 (c m).1 f b h
