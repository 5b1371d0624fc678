-- ===== src/Settle.antt =====
-- engine/stockmesh/programs/stocklana-settle: the on-chain settlement program. What an instruction gives, the
-- accounts that it is handed, and the program's small helpers (lib.rs and adapters/lib.rs). A failed or
-- aborted instruction has no effect, since the runtime rolls it back. Bytes are numbers below 256, keys
-- are lists of 32 bytes.
pub mod Bytes
pub mod Exposure
pub mod Asset
pub mod Policy
pub mod Layout
pub mod Order
use xtxc.Common.{
  ℕ, zero, suc, ◌+◌, ◌-◌, ◌*◌, ◌^◌, ◌≡◌, refl, Bool, true, false, ◌&&◌, List, [], ◌∷◌, ltb, ◌==◌,
  if◌then◌else◌, length, take, drop, Option, none, some,
}

-- The custom errors of the program.
pub data ProgramError : Type 0 where
  identity replay expired bounds min_out conservation adapter : ProgramError

pub data Program {ℓ} (A : Type ℓ) : Type ℓ where
  ok : A → Program A
  err : ProgramError → Program A
  panic : Program A

infixl 5 ◌>>=◌ ◌>>◌
abbrev pub ◌>>=◌ {ℓ κ} : {A : Type ℓ} {B : Type κ} → Program A → (A → Program B) → Program B
ok result >>= rest = rest result
panic >>= rest = panic
err code >>= rest = err code

abbrev pub ◌>>◌ {κ} : {B : Type κ} → Program (Unit {0}) → Program B → Program B
check >> rest = check >>= λ passed. rest

abbrev pub need : Bool → ProgramError → Program (Unit {0})
need true code = ok tt
need false code = err code

-- `a.checked_add(b).ok_or(err(code))?` on u64, and the subtraction.
abbrev pub checked_add : ℕ → ℕ → ProgramError → Program ℕ
checked_add a b code = if ltb (a + b) (2 ^ 64) then ok (a + b) else err code

abbrev pub checked_sub : ℕ → ℕ → ProgramError → Program ℕ
checked_sub a b code = if ltb a b then err code else ok (a - b)

-- `a[i]`
abbrev pub index {ℓ} : {A : Type ℓ} → List A → ℕ → Program A
index [] i = panic
index (x ∷ xs) zero = ok x
index (x ∷ xs) (suc i) = index xs i

pub record AccountInfo : Type 0 where
  pub key : List ℕ
  pub owner : List ℕ
  pub lamports : ℕ
  pub data_bytes : List ℕ
  pub is_signer : Bool
  pub is_writable : Bool
  pub executable : Bool

unfoldable pub same_bytes : List ℕ → List ℕ → Bool
same_bytes [] [] = true
same_bytes [] (y ∷ ys) = false
same_bytes (x ∷ xs) [] = false
same_bytes (x ∷ xs) (y ∷ ys) = x == y && same_bytes xs ys

-- Inversion of a successful step.
pub >>=-eq-ok {ℓ κ} :
    {A : Type ℓ} {B : Type κ} (r : Program A) (f : A → Program B) {b : B}
    → (r >>= f) ≡ ok b
    → (a : A) × (r ≡ ok a) × (f a ≡ ok b)
>>=-eq-ok (ok a) f h = (a, refl, h)
>>=-eq-ok (err code) f h = cc
>>=-eq-ok panic f h = cc

pub need-eq-ok : (b : Bool) (code : ProgramError) {u : Unit {0}} → need b code ≡ ok u → b ≡ true
need-eq-ok true code h = refl
need-eq-ok false code h = cc

pub ok-inj {ℓ} : {A : Type ℓ} {a b : A} → ok a ≡ ok b → a ≡ b
ok-inj h = cc
