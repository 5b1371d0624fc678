-- ===== src/Common/Ends.antt =====
-- Postconditions of calls, errors and aborts included: what a result satisfies, and whether the call
-- may abort at all.
use Prim.Native.Nat.{ℕ, ◌≤◌}
use mathlib.Core.Path.{◌≡◌, refl}
use mathlib.Core.Bool.{Bool, true, false}
use mathlib.Core.Option.{Option, none, some}
use xtxc.Common.Tests.{if◌then◌else◌}
use xtxc.Common.Outcome.{Outcome, Error, ok, err, panic, reject}
use xtxc.Common.Outcome
use xtxc.Common.Meter.{WorkMeter, Metered, ◌>>=◌, lift}

-- The result satisfies `P`; an abort is the case `abort`.
abbrev pub Ending {ℓ κ} : {A : Type ℓ} → Type κ → (A → Type κ) → Outcome A → Type κ
Ending abort P (ok a) = P a
Ending abort P (err e) = Unit
Ending abort P panic = abort

-- The call is charged to a budget of `limit`.
abbrev pub Within : ℕ → WorkMeter → Type 0
Within limit m = (m.limit ≡ limit) × (m.used ≤ limit)

abbrev pub Ends {ℓ} : {A : Type ℓ} → Type 0 → ℕ → (A → Type 0) → Outcome A × WorkMeter → Type 0
Ends abort limit P r = Within limit r.1 × Ending abort P r.0

module _ {ℓ κ} {A : Type ℓ} {B : Type κ} (abort : Type 0) where
  pub >>=-Ending :
      (P : A → Type 0) (Q : B → Type 0) (r : Outcome A) (f : A → Outcome B)
      → Ending abort P r
      → ((a : A) → P a → Ending abort Q (f a))
      → Ending abort Q (Outcome.◌>>=◌ r f)
  >>=-Ending P Q (ok a) f h next = next a h
  >>=-Ending P Q (err e) f h next = tt
  >>=-Ending P Q panic f h next = h

module _ {ℓ κ} {A : Type ℓ} {B : Type κ} (abort : Type 0) (limit : ℕ) where
  resume-Ends :
      (P : A → Type 0) (Q : B → Type 0) (r : Outcome A) (f : A → Metered B) (m : WorkMeter)
      → Within limit m
      → Ending abort P r
      → ((a : A) (m : WorkMeter) → P a → Within limit m → Ends abort limit Q (f a m))
      → Ends abort limit Q ((lift r >>= f) m)
  resume-Ends P Q (ok a) f m w h next = next a m h w
  resume-Ends P Q (err e) f m w h next = (w, tt)
  resume-Ends P Q panic f m w h next = (w, h)

  pub >>=-Ends :
      (P : A → Type 0) (Q : B → Type 0) (c : Metered A) (f : A → Metered B) (m : WorkMeter)
      → Ends abort limit P (c m)
      → ((a : A) (m : WorkMeter) → P a → Within limit m → Ends abort limit Q (f a m))
      → Ends abort limit Q ((c >>= f) m)
  >>=-Ends P Q c f m h next = resume-Ends P Q (c m).0 f (c m).1 h.0 h.1 next

pub reject-Ending :
    (abort : Type 0) (b : Bool) (e : Error)
    → Ending abort (λ (u : Unit {0}). b ≡ false) (reject b e)
reject-Ending abort true e = tt
reject-Ending abort false e = refl

-- What holds anyway, holds after a check.
pub kept_by_reject :
    (abort : Type 0) (P : Type 0) (b : Bool) (e : Error)
    → P
    → Ending abort (λ (u : Unit {0}). P) (reject b e)
kept_by_reject abort P true e h = tt
kept_by_reject abort P false e h = h

-- A test is decided, and a decision is kept.
pub either_way {ℓ κ} :
    {A : Type ℓ} (C : A → Type κ) (b : Bool) (x y : A)
    → (b ≡ true → C x)
    → (b ≡ false → C y)
    → C (elim b [ true ↦ x | false ↦ y ])
either_way C true x y f g = f refl
either_way C false x y f g = g refl

pub either_branch {ℓ κ} :
    {A : Type ℓ} (C : A → Type κ) (b : Bool) (x y : A)
    → (b ≡ true → C x)
    → (b ≡ false → C y)
    → C (if b then x else y)
either_branch C true x y f g = f refl
either_branch C false x y f g = g refl

-- What holds of the value, where there is one.
abbrev pub IfSome {ℓ κ} : {A : Type ℓ} → (A → Type κ) → Option A → Type κ
IfSome P none = Unit
IfSome P (some a) = P a

pub either_option {ℓ κ} :
    {A : Type 0} {B : Type ℓ} (P : A → Type 0) (C : B → Type κ) (o : Option A) (x : B) (f : A → B)
    → IfSome P o
    → C x
    → ((a : A) → P a → C (f a))
    → C (elim o [ none ↦ x | some a ↦ f a ])
either_option P C none x f h c next = c
either_option P C (some a) x f h c next = next a h

pub ends_in :
    {A : Type 0} (abort : Type 0) (r : Outcome A)
    → Ending abort (λ a. Unit) r
    → Ending abort (λ a. r ≡ ok a) r
ends_in abort (ok a) h = refl
ends_in abort (err e) h = tt
ends_in abort panic h = h

-- The same for a call whose meter is of no concern.
module _ {A B : Type 0} (abort : Type 0) (P : A → Type 0) (Q : B → Type 0) (f : A → Metered B)
    (next : (a : A) (m : WorkMeter) → P a → Ending abort Q (f a m).0) where
  resumed-Ending :
      (r : Outcome A) (m : WorkMeter) → Ending abort P r → Ending abort Q ((lift r >>= f) m).0
  resumed-Ending (ok a) m h = next a m h
  resumed-Ending (err e) m h = tt
  resumed-Ending panic m h = h

  pub >>=-Ending_metered :
      (c : Metered A) (m : WorkMeter) → Ending abort P (c m).0 → Ending abort Q ((c >>= f) m).0
  >>=-Ending_metered c m h = resumed-Ending (c m).0 (c m).1 h

pub Ending-map :
    {A : Type 0} (abort : Type 0) (P Q : A → Type 0) (r : Outcome A)
    → Ending abort P r
    → ((a : A) → P a → Q a)
    → Ending abort Q r
Ending-map abort P Q (ok a) h f = f a h
Ending-map abort P Q (err e) h f = tt
Ending-map abort P Q panic h f = h
