-- ===== src/Settle/Bytes.antt =====
-- engine/stockmesh/adapters/lib.rs and the byte arithmetic of the program: little-endian words in the data of an account.
use xtxc.Common.{
  ℕ, zero, suc, ◌+◌, ◌*◌, ◌/◌, ◌%◌, ◌^◌, ◌≡◌, refl, sym, ap, ◌∙◌, ◌≤◌, ◌<◌, ◌⊎◌, inl, inr, arith,
  false, List, [], ◌∷◌, ltb, if◌then◌else◌, length, take, drop,
}
use xtxc.Settle.{Program, ok, err, panic, adapter}

-- `from_le_bytes` and `to_le_bytes`
unfoldable pub from_le_bytes : List ℕ → ℕ
from_le_bytes [] = 0
from_le_bytes (b ∷ bs) = b + 256 * from_le_bytes bs

unfoldable pub to_le_bytes : ℕ → ℕ → List ℕ
to_le_bytes zero v = []
to_le_bytes (suc n) v = v % 256 ∷ to_le_bytes n (v / 256)

-- `data[offset..offset + n]` where it is in range.
abbrev pub slice : List ℕ → ℕ → ℕ → List ℕ
slice d offset n = take n (drop offset d)

-- `ad(dex::u64_at(data, offset))?`
unfoldable pub u64_at : List ℕ → ℕ → Program ℕ
u64_at d offset =
    if ltb (length d) (offset + 8) then err adapter else ok (from_le_bytes (slice d offset 8))

-- `data[offset..offset + n].copy_from_slice(bs)`
unfoldable pub put : List ℕ → ℕ → List ℕ → List ℕ
put d zero [] = d
put [] zero (b ∷ bs) = []
put (x ∷ xs) zero (b ∷ bs) = b ∷ put xs zero bs
put [] (suc offset) bs = []
put (x ∷ xs) (suc offset) bs = x ∷ put xs offset bs

unfoldable pub copy_from_slice : List ℕ → ℕ → List ℕ → Program (List ℕ)
copy_from_slice d offset bs =
    if ltb (length d) (offset + length bs) then panic else ok (put d offset bs)

pub length-to_le_bytes : (n v : ℕ) → length (to_le_bytes n v) ≡ n
unfolding to_le_bytes
length-to_le_bytes zero v = refl
length-to_le_bytes (suc n) v = ap suc (length-to_le_bytes n (v / 256))

-- A word that fits its bytes is read back from them.
pub from_le_bytes-to_le_bytes : (n v : ℕ) → v < 256 ^ n → from_le_bytes (to_le_bytes n v) ≡ v
unfolding from_le_bytes to_le_bytes
from_le_bytes-to_le_bytes zero v h = omega arith
from_le_bytes-to_le_bytes (suc n) v h =
    let rest = from_le_bytes-to_le_bytes n (v / 256) (omega arith) in omega arith

pub length-put : (d : List ℕ) (offset : ℕ) (bs : List ℕ) → length (put d offset bs) ≡ length d
unfolding put
length-put d zero [] = refl
length-put [] zero (b ∷ bs) = refl
length-put (x ∷ xs) zero (b ∷ bs) = ap suc (length-put xs zero bs)
length-put [] (suc offset) bs = refl
length-put (x ∷ xs) (suc offset) bs = ap suc (length-put xs offset bs)

-- What is written is read.
pub slice-put :
    (d : List ℕ) (offset : ℕ) (bs : List ℕ)
    → offset + length bs ≤ length d
    → slice (put d offset bs) offset (length bs) ≡ bs
unfolding put
slice-put d zero [] h = refl
slice-put [] zero (b ∷ bs) h = absurd (omega arith)
slice-put (x ∷ xs) zero (b ∷ bs) h = ap (λ t. b ∷ t) (slice-put xs zero bs (omega arith))
slice-put [] (suc offset) bs h = absurd (omega arith)
slice-put (x ∷ xs) (suc offset) bs h = slice-put xs offset bs (omega arith)

-- Bytes before or behind those written are kept.
abbrev pub Apart : ℕ → ℕ → ℕ → ℕ → Type 0
Apart o1 n1 o2 n2 = (o2 + n2 ≤ o1) ⊎ (o1 + n1 ≤ o2)

take-put :
    (d : List ℕ) (offset : ℕ) (bs : List ℕ) (n : ℕ)
    → n ≤ offset
    → take n (put d offset bs) ≡ take n d
unfolding put
take-put d offset bs zero h = refl
take-put d zero bs (suc n) h = absurd (omega arith)
take-put [] (suc offset) bs (suc n) h = refl
take-put (x ∷ xs) (suc offset) bs (suc n) h =
    ap (λ t. x ∷ t) (take-put xs offset bs n (omega arith))

pub slice-put_before :
    (d : List ℕ) (offset : ℕ) (bs : List ℕ) (o n : ℕ)
    → o + n ≤ offset
    → slice (put d offset bs) o n ≡ slice d o n
unfolding put
slice-put_before d offset bs zero n h = take-put d offset bs n (omega arith)
slice-put_before d zero bs (suc o) n h = absurd (omega arith)
slice-put_before [] (suc offset) bs (suc o) n h = refl
slice-put_before (x ∷ xs) (suc offset) bs (suc o) n h =
    slice-put_before xs offset bs o n (omega arith)

pub slice-put_behind :
    (d : List ℕ) (offset : ℕ) (bs : List ℕ) (o n : ℕ)
    → offset + length bs ≤ o
    → slice (put d offset bs) o n ≡ slice d o n
unfolding put
slice-put_behind d zero [] o n h = refl
slice-put_behind [] zero (b ∷ bs) o n h = refl
slice-put_behind (x ∷ xs) zero (b ∷ bs) zero n h = absurd (omega arith)
slice-put_behind (x ∷ xs) zero (b ∷ bs) (suc o) n h = slice-put_behind xs zero bs o n (omega arith)
slice-put_behind [] (suc offset) bs o n h = refl
slice-put_behind (x ∷ xs) (suc offset) bs zero n h = absurd (omega arith)
slice-put_behind (x ∷ xs) (suc offset) bs (suc o) n h =
    slice-put_behind xs offset bs o n (omega arith)

-- A word that is written at an offset is read back there.
pub u64_at-put :
    (d : List ℕ) (offset v : ℕ)
    → offset + 8 ≤ length d
    → v < 2 ^ 64
    → u64_at (put d offset (to_le_bytes 8 v)) offset ≡ ok v
unfolding u64_at
u64_at-put d offset v fits small =
    let len = length-put d offset (to_le_bytes 8 v) in
    let eight = length-to_le_bytes 8 v in
    let same : slice (put d offset (to_le_bytes 8 v)) offset 8 ≡ to_le_bytes 8 v =
      ap (slice (put d offset (to_le_bytes 8 v)) offset) (sym eight)
      ∙ slice-put d offset (to_le_bytes 8 v) (omega arith) in
    let value = from_le_bytes-to_le_bytes 8 v (omega arith) in
    let room : ltb (length (put d offset (to_le_bytes 8 v))) (offset + 8) ≡ false = ground arith in
    rw room (ap ok (ap from_le_bytes same ∙ value))

-- A word elsewhere is the one before.
pub u64_at-put_elsewhere :
    (d : List ℕ) (offset : ℕ) (bs : List ℕ) (o : ℕ)
    → Apart offset (length bs) o 8
    → u64_at (put d offset bs) o ≡ u64_at d o
unfolding u64_at
u64_at-put_elsewhere d offset bs o h =
    let len = length-put d offset bs in
    let same : slice (put d offset bs) o 8 ≡ slice d o 8 = elim h [
      | inl before ↦ slice-put_before d offset bs o 8 before
      | inr behind ↦ slice-put_behind d offset bs o 8 behind
    ] in
    rw len (rw same)
