-- ===== src/Settle/Exposure.antt =====
-- engine/stockmesh/native/src/lib.rs and engine/stockmesh/programs/stocklana-settle/src/exposure.rs: from raw token atoms to economic exposure. The
-- adapter's errors are all `adapter` to the program. A timestamp is an i64.
pub mod Floor
use xtxc.Common.{
  ℕ, zero, suc, ◌+◌, ◌-◌, ◌*◌, ◌/◌, ◌%◌, ◌^◌, max, bit_or, Bool, true, false, not, ◌&&◌, ◌||◌, List,
  [], ◌∷◌, ltb, leb, ◌==◌, ◌!=◌, if◌then◌else◌, length, take, drop, get_or, Option, none, some,
}
use xtxc.Common.Int.{ℤ, pos, negsuc, pos_part, neg_part, ◌-ℤ◌}
use xtxc.Optimizer.{bit}
use xtxc.Settle.{
  Program, ok, err, panic, adapter, identity, expired, bounds, need, ◌>>=◌, ◌>>◌, AccountInfo,
  same_bytes,
}
use xtxc.Settle.Bytes.{from_le_bytes, slice}

pub record ScaledUiAmount : Type 0 where
  pub decimals : ℕ
  pub multiplier_q32 : ℕ
  pub next_multiplier_effective_timestamp : ℤ
  pub next_multiplier_q32 : ℕ

-- The number that the bits of an i64 stand for.
abbrev pub as_i64 : ℕ → ℤ
as_i64 w = if ltb w (2 ^ 63) then pos w else negsuc (2 ^ 64 - w - 1)

abbrev pub leb_ℤ : ℤ → ℤ → Bool
leb_ℤ x y = leb (pos_part x + neg_part y) (pos_part y + neg_part x)

-- `a.checked_mul(b)?` on u128, and the largest words.
abbrev pub checked_mul : ℕ → ℕ → Program ℕ
checked_mul a b = if ltb (a * b) (2 ^ 128) then ok (a * b) else err adapter

abbrev pub to_u64 : ℕ → Program ℕ
to_u64 n = if ltb n (2 ^ 64) then ok n else err adapter

-- `significand.checked_shl(shift)`: the bits above 128 are lost.
unfoldable pub shift_left : ℕ → ℕ → Program ℕ
shift_left significand shift =
    if ltb shift 128 then ok (significand * 2 ^ shift % 2 ^ 128) else err adapter

-- The largest multiple of 2 ^ -32 up to the value of a positive float, times 2 ^ 32.
unfoldable pub positive_f64_q32 : ℕ → Program ℕ
positive_f64_q32 bits =
    let exponent = bits / 2 ^ 52 % 2 ^ 11 in
    let significand = 2 ^ 52 + bits % 2 ^ 52 in
    do
      need (ltb bits (2 ^ 63)) adapter
      need (not (exponent == 0 || exponent == 2047)) adapter
      fixed ←
          if leb 1043 exponent
          then shift_left significand (exponent - 1043)
          else ok (if ltb (1043 - exponent) 128 then significand / 2 ^ (1043 - exponent) else 0)
      need (not (fixed == 0)) adapter
      to_u64 fixed

-- `bytes(d, offset)?`
unfoldable pub bytes_at : List ℕ → ℕ → ℕ → Program (List ℕ)
bytes_at d offset n = if ltb (length d) (offset + n) then err adapter else ok (slice d offset n)

unfoldable pub all_zero_bytes : List ℕ → Bool
all_zero_bytes [] = true
all_zero_bytes (b ∷ bs) = b == 0 && all_zero_bytes bs

-- The multiplier, when the next one takes effect, and the next one.
abbrev pub Scaling : Type 0
Scaling = ℕ × ℤ × ℕ

-- One extension: its number and its value.
unfoldable pub read_extension : ℕ → List ℕ → Option Scaling → Program (Option Scaling)
read_extension kind value scaled = elim (kind == 25) [
  | false ↦ ok scaled
  | true ↦ do
    need (length value == 56) adapter
    current ← positive_f64_q32 (from_le_bytes (slice value 32 8))
    next ← positive_f64_q32 (from_le_bytes (slice value 48 8))
    ok (some (current, as_i64 (from_le_bytes (slice value 40 8)), next))
]

-- `while position < mint.len()`, on fuel: every extension takes at least four bytes.
unfoldable pub read_extensions : ℕ → List ℕ → ℕ → ℕ → Option Scaling → Program (Option Scaling)
read_extensions zero mint position seen scaled = panic
read_extensions (suc fuel) mint position seen scaled =
    elim (leb (length mint) position || all_zero_bytes (drop position mint)) [
      | true ↦ ok scaled
      | false ↦ do
        kind ← bytes_at mint position 2
        size ← bytes_at mint (position + 2) 2
        need (not (leb 64 (from_le_bytes kind) || bit seen (from_le_bytes kind))) adapter
        value ← bytes_at mint (position + 4) (from_le_bytes size)
        scaled' ← read_extension (from_le_bytes kind) value scaled
        read_extensions fuel mint (position + 4 + from_le_bytes size)
            (bit_or seen (2 ^ from_le_bytes kind)) scaled'
    ]

-- The view at a time: from the effective timestamp on the next multiplier holds.
unfoldable pub scaled_at : ℕ → ℤ → Option Scaling → Program ScaledUiAmount
scaled_at decimals unix_timestamp none = err adapter
scaled_at decimals unix_timestamp (some (current, effective, next)) = ok (record {
  decimals = decimals;
  multiplier_q32 = if leb_ℤ effective unix_timestamp then next else current;
  next_multiplier_effective_timestamp = effective;
  next_multiplier_q32 = next;
})

-- `ScaledUiAmount::decode`
unfoldable pub decode : List ℕ → ℤ → Program ScaledUiAmount
decode mint unix_timestamp = do
  need
      (leb 166 (length mint)
        && get_or mint 45 0 == 1
        && get_or mint 165 0 == 1
        && all_zero_bytes (slice mint 82 83))
      adapter
  scaled ← read_extensions (suc (length mint)) mint 166 0 none
  scaled_at (get_or mint 44 0) unix_timestamp scaled

unfoldable pub exposure_q32 : ScaledUiAmount → ℕ → ℕ → ℕ → ℕ → Program ℕ
exposure_q32 s raw_atoms numerator denominator conservative_bps = do
  need
      (not (
        raw_atoms == 0
        || numerator == 0
        || denominator == 0
        || conservative_bps == 0
        || ltb 10_000 conservative_bps))
      adapter
  scale ← if ltb (10 ^ s.decimals) (2 ^ 128) then ok (10 ^ s.decimals) else err adapter
  scaled ← checked_mul scale denominator
  divisor ← checked_mul scaled 10_000
  value ← checked_mul raw_atoms s.multiplier_q32
  value' ← checked_mul value numerator
  value'' ← checked_mul value' conservative_bps
  to_u64 (value'' / divisor)

pub record Converter : Type 0 where
  pub scaled : ScaledUiAmount
  pub numerator : ℕ
  pub denominator : ℕ
  pub conservative_bps : ℕ

-- The largest i64.
abbrev pub i64_max : ℤ
i64_max = pos (2 ^ 63 - 1)

-- A change of the multiplier is none at all, or no closer than 900 seconds.
unfoldable pub is_settled : ℤ → ℤ → Bool
is_settled timestamp effective =
    leb_ℤ effective (pos 0)
    || ltb 900 (max (pos_part (timestamp -ℤ effective)) (neg_part (timestamp -ℤ effective)))

-- `match exposure_model`: 0 is a fixed ratio, 1 the scaled amount of Token-2022.
unfoldable pub scaled_of : List ℕ → AccountInfo → ℕ → ℤ → Program ScaledUiAmount
scaled_of token_2022 mint zero timestamp = do
  need (leb 82 (length mint.data_bytes) && get_or mint.data_bytes 45 0 == 1) identity
  ok (record {
    decimals = get_or mint.data_bytes 44 0;
    multiplier_q32 = 2 ^ 32;
    next_multiplier_effective_timestamp = i64_max;
    next_multiplier_q32 = 2 ^ 32;
  })
scaled_of token_2022 mint (suc zero) timestamp = do
  need (same_bytes mint.owner token_2022) identity
  s ← decode mint.data_bytes timestamp
  need (is_settled timestamp s.next_multiplier_effective_timestamp) expired
  ok s
scaled_of token_2022 mint (suc (suc model)) timestamp = err bounds

-- `Converter::decode`
unfoldable pub converter : List ℕ → AccountInfo → ℕ → ℕ → ℕ → ℕ → ℤ → Program Converter
converter token_2022 mint model conservative_bps numerator denominator timestamp = do
  s ← scaled_of token_2022 mint model timestamp
  need
      (ltb 0 numerator
        && ltb 0 denominator
        && leb 1 conservative_bps
        && leb conservative_bps 10_000)
      bounds
  ok (record {
    scaled = s;
    numerator = numerator;
    denominator = denominator;
    conservative_bps = conservative_bps;
  })

-- `exposure::convert`
unfoldable pub convert : List ℕ → AccountInfo → ℕ → ℕ → ℕ → ℕ → ℕ → ℤ → Program ℕ
convert token_2022 mint model conservative_bps numerator denominator raw_output timestamp = do
  c ← converter token_2022 mint model conservative_bps numerator denominator timestamp
  exposure_q32 c.scaled raw_output c.numerator c.denominator c.conservative_bps
