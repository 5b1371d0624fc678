-- ===== src/Settle/Order/Words.antt =====
-- engine/stockmesh/programs/stocklana-settle/src/order.rs: the words that a fill reads and writes.
use xtxc.Common.{
  ℕ, zero, suc, ◌+◌, ◌*◌, ◌/◌, ◌^◌, ◌≡◌, refl, sym, ap, subst, ◌≤◌, ◌<◌, inl, inr, arith, Bool,
  true, ◌&&◌, List, [], ◌∷◌, ltb, length, All, Bool-cases,
}
use xtxc.Settle.{ok}
use xtxc.Settle.Bytes.{
  from_le_bytes, to_le_bytes, slice, u64_at, put, copy_from_slice, length-put, length-to_le_bytes,
  u64_at-put, u64_at-put_elsewhere, Apart, slice-put_before, slice-put_behind,
}

abbrev pub Bytes : List ℕ → Type 0
Bytes = All λ b. b < 256

from_le_bytes-lt : (bs : List ℕ) → Bytes bs → from_le_bytes bs < 256 ^ length bs
unfolding from_le_bytes
from_le_bytes-lt [] h = omega arith
from_le_bytes-lt (b ∷ bs) h =
    let rest = from_le_bytes-lt bs h.1 in
    let first = h.0 in
    let small : b + 256 * from_le_bytes bs < 256 ^ suc (length bs) = omega arith in small

pub slice-Bytes : (d : List ℕ) (o n : ℕ) → Bytes d → Bytes (slice d o n)
slice-Bytes d zero zero h = tt
slice-Bytes [] zero (suc n) h = tt
slice-Bytes (b ∷ d) zero (suc n) h = (h.0, slice-Bytes d zero n h.1)
slice-Bytes [] (suc o) zero h = tt
slice-Bytes [] (suc o) (suc n) h = tt
slice-Bytes (b ∷ d) (suc o) n h = slice-Bytes d o n h.1

length-slice : (d : List ℕ) (o n : ℕ) → o + n ≤ length d → length (slice d o n) ≡ n
length-slice d zero zero h = refl
length-slice [] zero (suc n) h = absurd (omega arith)
length-slice (b ∷ d) zero (suc n) h = ap suc (length-slice d zero n (omega arith))
length-slice [] (suc o) n h = absurd (omega arith)
length-slice (b ∷ d) (suc o) n h = length-slice d o n (omega arith)

-- A word of an account is a u64.
pub u64_at-lt : (d : List ℕ) (o v : ℕ) → Bytes d → u64_at d o ≡ ok v → v < 2 ^ 64
unfolding u64_at
u64_at-lt d o v b h = elim (Bool-cases (ltb (length d) (o + 8))) [
  | inl e ↦ absurd (ground arith)
  | inr e ↦
      let v_eq : from_le_bytes (slice d o 8) ≡ v = ground arith in
      let len = length-slice d o 8 (ground arith) in
      let small = from_le_bytes-lt (slice d o 8) (slice-Bytes d o 8 b) in
      let pow : 256 ^ length (slice d o 8) ≡ 2 ^ 64 = ap (λ n. 256 ^ n) len in omega arith
]

pub to_le_bytes-Bytes : (n v : ℕ) → Bytes (to_le_bytes n v)
unfolding to_le_bytes
to_le_bytes-Bytes zero v = tt
to_le_bytes-Bytes (suc n) v = (omega arith, to_le_bytes-Bytes n (v / 256))

pub put-Bytes : (d : List ℕ) (o : ℕ) (bs : List ℕ) → Bytes d → Bytes bs → Bytes (put d o bs)
unfolding put
put-Bytes d zero [] h k = h
put-Bytes [] zero (b ∷ bs) h k = tt
put-Bytes (x ∷ xs) zero (b ∷ bs) h k = (k.0, put-Bytes xs zero bs h.1 k.1)
put-Bytes [] (suc o) bs h k = tt
put-Bytes (x ∷ xs) (suc o) bs h k = (h.0, put-Bytes xs o bs h.1 k)

-- A write of a word that goes through: the word is there, and every other range of bytes is kept.
pub record Wrote (d d' : List ℕ) (o v : ℕ) : Type 0 where
  pub as_long : length d' ≡ length d
  pub bytes : Bytes d'
  pub reads : u64_at d' o ≡ ok v
  pub elsewhere : (p : ℕ) → Apart o 8 p 8 → u64_at d' p ≡ u64_at d p
  pub others : (p n : ℕ) → Apart o 8 p n → slice d' p n ≡ slice d p n

pub copy_from_slice-Wrote :
    (d d' : List ℕ) (o v : ℕ)
    → Bytes d
    → v < 2 ^ 64
    → copy_from_slice d o (to_le_bytes 8 v) ≡ ok d'
    → Wrote d d' o v
unfolding copy_from_slice
copy_from_slice-Wrote d d' o v b small h =
    let eight = length-to_le_bytes 8 v in
    elim (Bool-cases (ltb (length d) (o + length (to_le_bytes 8 v)))) [
      | inl e ↦ absurd (ground arith)
      | inr e ↦
          let shape : put d o (to_le_bytes 8 v) ≡ d' = ground arith in
          subst (λ t. Wrote d t o v) shape
            (record {
              as_long = length-put d o (to_le_bytes 8 v);
              bytes = put-Bytes d o (to_le_bytes 8 v) b (to_le_bytes-Bytes 8 v);
              reads = u64_at-put d o v (ground arith) small;
              elsewhere = λ p apart.
                  u64_at-put_elsewhere d o (to_le_bytes 8 v) p
                    (subst (λ k. Apart o k p 8) (sym eight) apart);
              others = λ p n apart. elim (subst (λ k. Apart o k p n) (sym eight) apart) [
                | inl before ↦ slice-put_before d o (to_le_bytes 8 v) p n before
                | inr behind ↦ slice-put_behind d o (to_le_bytes 8 v) p n behind
              ];
            })
    ]

unfoldable pub all_bytes : List ℕ → Bool
all_bytes [] = true
all_bytes (b ∷ bs) = ltb b 256 && all_bytes bs

pub all_bytes-Bytes : (d : List ℕ) → all_bytes d ≡ true → Bytes d
unfolding all_bytes
all_bytes-Bytes [] h = tt
all_bytes-Bytes (b ∷ bs) h = (ground arith, all_bytes-Bytes bs (ground arith))
