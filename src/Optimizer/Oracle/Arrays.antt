-- ===== src/Optimizer/Oracle/Arrays.antt =====
-- engine/stockmesh/optimizer/oracle.rs: writes to the arrays of a plan, their sums and the venues in use.
use xtxc.Common.{
  ℕ, zero, suc, ◌+◌, ◌≡◌, refl, ◌≤◌, ◌<◌, List, [], ◌∷◌, arith, false, ◌==◌, if◌then◌else◌, get_or,
  set, get_or-set_at, length, replicate,
}
use xtxc.Optimizer.Waterfill.{sum}
use xtxc.Optimizer.Oracle.Refine.{funded}

pub length-set {ℓ} : {A : Type ℓ} (xs : List A) (i : ℕ) (v : A) → length (set xs i v) ≡ length xs
length-set [] i v = refl
length-set (x ∷ xs) zero v = refl
length-set (x ∷ xs) (suc i) v = ground (arith, length-set xs i v)

pub get_or-set :
    (xs : List ℕ) (i v j : ℕ)
    → i < length xs
    → get_or (set xs i v) j 0 ≡ (if i == j then v else get_or xs j 0)
get_or-set xs i v j h = get_or-set_at xs i v j 0 h

pub sum-set :
    (xs : List ℕ) (i v : ℕ) → i < length xs → sum (set xs i v) + get_or xs i 0 ≡ sum xs + v
unfolding sum
sum-set [] i v h = absurd (omega arith)
sum-set (x ∷ xs) zero v h = omega arith
sum-set (x ∷ xs) (suc i) v h = omega (arith, sum-set xs i v (omega arith))

-- 1 where the venue is in use.
abbrev pub one_if : ℕ → ℕ
one_if x = if x == 0 then 0 else 1

pub funded-set :
    (xs : List ℕ) (i v : ℕ)
    → i < length xs
    → funded (set xs i v) + one_if (get_or xs i 0) ≡ funded xs + one_if v
unfolding funded
funded-set [] i v h = absurd (omega arith)
funded-set (x ∷ xs) zero v h = omega arith
funded-set (x ∷ xs) (suc i) v h = omega (arith, funded-set xs i v (omega arith))

pub get_or-le : (xs : List ℕ) (i : ℕ) → get_or xs i 0 ≤ sum xs
unfolding sum
get_or-le [] i = omega arith
get_or-le (x ∷ xs) zero = omega arith
get_or-le (x ∷ xs) (suc i) = omega (arith, get_or-le xs i)

pub get_or-replicate : (n i d : ℕ) → get_or (replicate n d) i d ≡ d
get_or-replicate zero i d = refl
get_or-replicate (suc n) zero d = refl
get_or-replicate (suc n) (suc i) d = get_or-replicate n i d

pub length-exchange {ℓ} :
    {A : Type ℓ} (xs : List A) (from to : ℕ) (x y : A)
    → length (set (set xs from x) to y) ≡ length xs
length-exchange xs from to x y =
    omega (arith, length-set (set xs from x) to y, length-set xs from x)

-- An exchange writes to two venues.
module _ (xs : List ℕ) (from to x y : ℕ) (apart : (from == to) ≡ false)
    (first : from < length xs) where
  pub pair-le : get_or xs from 0 + get_or xs to 0 ≤ sum xs
  pair-le =
      let k = sum-set xs from 0 first in
      let g = get_or-set xs from 0 to first in let l = get_or-le (set xs from 0) to in ground arith

  module _ (second : to < length xs) where
    pub sum-exchange :
        sum (set (set xs from x) to y) + get_or xs from 0 + get_or xs to 0 ≡ sum xs + x + y
    sum-exchange =
        let len = length-set xs from x in
        let k = sum-set xs from x first in
        let k2 = sum-set (set xs from x) to y (omega arith) in
        let g = get_or-set xs from x to first in ground arith

    pub funded-exchange :
        funded (set (set xs from x) to y) + one_if (get_or xs from 0) + one_if (get_or xs to 0)
        ≡ funded xs + one_if x + one_if y
    funded-exchange =
        let len = length-set xs from x in
        let k = funded-set xs from x first in
        let k2 = funded-set (set xs from x) to y (omega arith) in
        let g = get_or-set xs from x to first in
        let same : get_or (set xs from x) to 0 ≡ get_or xs to 0 = ground arith in
        let same_one : one_if (get_or (set xs from x) to 0) ≡ one_if (get_or xs to 0) = rw same in
        omega arith

    pub get_or-exchange :
        (j : ℕ)
        → get_or (set (set xs from x) to y) j 0
          ≡ (if to == j then y else if from == j then x else get_or xs j 0)
    get_or-exchange j =
        let len = length-set xs from x in
        let g2 = get_or-set (set xs from x) to y j (omega arith) in
        let g = get_or-set xs from x j first in rw g2 (rw g)
