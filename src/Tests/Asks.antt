-- ===== src/Tests/Asks.antt =====
-- Tests of the resting asks of the settlement program.
use xtxc.Common.{
  ◌/◌, ℕ, ◌≡◌, refl, ◌+◌, ◌-◌, ◌*◌, ◌^◌, ◌≤◌, ◌<◌, List, [], ◌∷◌, ◌++◌, replicate, true, false,
  arith, Bool,
}
use xtxc.Common.Int.{pos}
use xtxc.Settle.{ok, err, replay, AccountInfo, same_bytes}
use xtxc.Settle.Bytes.{from_le_bytes, to_le_bytes, u64_at, put, copy_from_slice, u64_at-put}
use xtxc.Settle.Exposure.{
  ScaledUiAmount, positive_f64_q32, shift_left, exposure_q32, scaled_of, converter, convert,
  all_zero_bytes,
}
use xtxc.Settle.Exposure.Floor.{exposure_q32-Floor, positive_f64_q32-Floor}
use xtxc.Settle.Asset.{checked_asset, check_data, inspect}
use xtxc.Settle.Order.{
  Derivation, Places, Conversion, Clock, order_tag, ceil_q32, binds, record_fill, check_resting,
  validate_fill,
}
use xtxc.Settle.Order.Cancel.{
  Invoke, transfer_checked_signed, balances, check_cancel, close_order, cancel,
}
use xtxc.Settle.Order.Words.{all_bytes, all_bytes-Bytes}
use xtxc.Settle.Order.Fills.{Resting, SameTerms}
use xtxc.Settle.Order.Sequence.{
  Filled, none_yet, one_more, Filled-Resting, record_fill_once, record_fill_runs,
}
use xtxc.Settle.Order.Validated.{Valid, validate_fill-Valid}
use xtxc.Settle.Order.Closed.{Returned, Over, cancel_final}

abbrev pub key_of : ℕ → List ℕ
key_of n = replicate 32 n

-- A word of small value.
abbrev pub word : ℕ → ℕ → List ℕ
word low high = low ∷ 0 ∷ 0 ∷ 0 ∷ high ∷ 0 ∷ 0 ∷ 0 ∷ []

-- An order of 100 atoms at one cash atom for each, with the stock left, the revision and the cash paid.
abbrev order_data : List ℕ → List ℕ → List ℕ → List ℕ
order_data remaining revision filled =
    order_tag
    ++ key_of 4
    ++ key_of 9
    ++ key_of 10
    ++ key_of 11
    ++ key_of 8
    ++ key_of 6
    ++ key_of 12
    ++ word 77 0
    ++ word 100 0
    ++ remaining
    ++ word 0 1
    ++ word 200 0
    ++ revision
    ++ filled
    ++ replicate 40 0
    ++ (1 ∷ replicate 7 0)

abbrev fresh : List ℕ
fresh = order_data (word 100 0) (word 0 0) (word 0 0)

abbrev partly_filled : List ℕ
partly_filled = order_data (word 90 0) (word 1 0) (word 0 11)

abbrev cash : ℕ
cash = 11 * 2 ^ 32

fill_run : record_fill fresh 0 10 cash ≡ ok partly_filled
unfolding record_fill same_bytes u64_at from_le_bytes to_le_bytes put copy_from_slice
fill_run = refl

fresh-Resting : Resting fresh 100 0 0
unfolding all_bytes same_bytes u64_at from_le_bytes
fresh-Resting = record {
  bytes = all_bytes-Bytes fresh refl;
  order = refl;
  resting = refl;
  stock = refl;
  cash = refl;
  number = refl;
}

abbrev further_filled : List ℕ
further_filled = order_data (word 70 0) (word 2 0) (word 0 32)

second_fill_run : record_fill partly_filled 1 20 (21 * 2 ^ 32) ≡ ok further_filled
unfolding record_fill same_bytes u64_at from_le_bytes to_le_bytes put copy_from_slice
second_fill_run = refl

two_fills : Filled fresh further_filled 2 30 (32 * 2 ^ 32)
two_fills =
    one_more partly_filled further_filled 1 10 cash 1 20 (21 * 2 ^ 32)
      (one_more fresh partly_filled 0 0 0 0 10 cash none_yet fill_run) second_fill_run

Filled-Resting_example :
    (30 ≤ 100) × Resting further_filled 70 (32 * 2 ^ 32) 2 × SameTerms fresh further_filled
Filled-Resting_example =
    Filled-Resting fresh further_filled 2 30 (32 * 2 ^ 32) 100 0 0 fresh-Resting two_fills

record_fill_once_example : record_fill partly_filled 0 5 5 ≡ err replay
record_fill_once_example =
    record_fill_once fresh partly_filled 100 0 0 0 10 cash fresh-Resting fill_run 5 5

record_fill_runs_example : (d : List ℕ) × (record_fill fresh 0 40 9 ≡ ok d)
record_fill_runs_example =
    record_fill_runs fresh 100 0 0 40 9 fresh-Resting (omega arith) (omega arith) (omega arith)

u64_at-put_example : u64_at (put fresh 272 (to_le_bytes 8 513)) 272 ≡ ok 513
u64_at-put_example = u64_at-put fresh 272 513 (omega arith) (omega arith)

-- One atom of 6 decimals at a multiplier of 1.5, with a haircut of a tenth.
abbrev scaled : ScaledUiAmount
scaled = record {
  decimals = 6;
  multiplier_q32 = 3 * 2 ^ 31;
  next_multiplier_effective_timestamp = pos 0;
  next_multiplier_q32 = 2 ^ 32;
}

exposure_run : exposure_q32 scaled 2_000_000 1 1 9_000 ≡ ok 11_596_411_699
unfolding exposure_q32
exposure_run = refl

exposure_q32-Floor_example :
    (11_596_411_699 * (10 ^ 6 * 1 * 10_000) ≤ 2_000_000 * (3 * 2 ^ 31) * 1 * 9_000)
    × (2_000_000 * (3 * 2 ^ 31) * 1 * 9_000
        < 11_596_411_699 * (10 ^ 6 * 1 * 10_000) + 10 ^ 6 * 1 * 10_000)
    × (11_596_411_699 < 2 ^ 64)
exposure_q32-Floor_example =
    exposure_q32-Floor scaled 2_000_000 1 1 9_000 11_596_411_699 exposure_run

-- The float 1.5.
abbrev one_and_a_half : ℕ
one_and_a_half = 0x3ff8_0000_0000_0000

float_run : positive_f64_q32 one_and_a_half ≡ ok (3 * 2 ^ 31)
unfolding positive_f64_q32 shift_left
float_run = refl

positive_f64_q32-Floor_example :
    (1043 ≤ 1023 → 3 * 2 ^ 31 ≡ (2 ^ 52 + 2 ^ 51) * 2 ^ (1023 - 1043))
    × (1023 < 1043 → 3 * 2 ^ 31 ≡ (2 ^ 52 + 2 ^ 51) / 2 ^ (1043 - 1023))
    × (0 < 3 * 2 ^ 31)
positive_f64_q32-Floor_example = positive_f64_q32-Floor one_and_a_half (3 * 2 ^ 31) float_run

-- The accounts: the classic token program is 1, the program of the asks 3, the owner 4, the order 5.
abbrev pub account : ℕ → ℕ → List ℕ → Bool → Bool → AccountInfo
account key owner content signer writable = record {
  key = key_of key;
  owner = key_of owner;
  lamports = 1;
  data_bytes = content;
  is_signer = signer;
  is_writable = writable;
  executable = true;
}

-- A token account of the mint 8.
abbrev pub tokens : ℕ → ℕ → List ℕ
tokens owner amount =
    key_of 8 ++ key_of owner ++ word amount 0 ++ replicate 36 0 ++ (1 ∷ replicate 56 0)

abbrev pub mint_data : List ℕ
mint_data = replicate 45 0 ++ (1 ∷ replicate 36 0)

abbrev derive : Derivation
derive seeds program = (key_of 5, 255)

abbrev fill_accounts : List AccountInfo
fill_accounts =
    account 4 2 [] false false
    ∷ account 5 3 fresh false true
    ∷ account 6 1 (tokens 5 100) false true
    ∷ account 12 1 [] false true
    ∷ account 10 3 [] false false
    ∷ account 11 1 [] false false
    ∷ account 8 1 mint_data false false
    ∷ account 1 2 [] false false
    ∷ []

abbrev places : Places
places = record {
  order = 1;
  owner = 0;
  escrow = 2;
  cash_destination = 3;
  policy = 4;
  cash_mint = 5;
  product_mint = 6;
  product_program = 7;
}

abbrev one_to_one : Conversion
one_to_one = record { model = 0; conservative_bps = 10_000; numerator = 1; denominator = 1 }

abbrev clock : Clock
clock = record { slot = 150; unix_timestamp = pos 1_000 }

validate_run :
    validate_fill derive
      (key_of 1)
      (key_of 2)
      (key_of 3)
      fill_accounts
      places
      0
      10
      cash
      one_to_one
      clock
    ≡ ok 77
unfolding validate_fill check_resting binds ceil_q32 checked_asset check_data inspect all_zero_bytes
    same_bytes u64_at from_le_bytes to_le_bytes convert converter scaled_of exposure_q32
validate_run = refl

validate_fill-Valid_example :
    Valid derive (key_of 1) (key_of 2) (key_of 3) fill_accounts places 0 10 cash one_to_one clock 77
validate_fill-Valid_example =
    validate_fill-Valid derive (key_of 1) (key_of 2) (key_of 3) fill_accounts places 0 10 cash
      one_to_one clock 77 validate_run

abbrev cancel_accounts : List ℕ → ℕ → ℕ → List AccountInfo
cancel_accounts content escrowed owned =
    account 4 2 [] true true
    ∷ account 5 3 content false true
    ∷ account 6 1 (tokens 5 escrowed) false true
    ∷ account 7 1 (tokens 4 owned) false true
    ∷ account 8 1 mint_data false false
    ∷ account 1 2 [] false false
    ∷ []

-- The token program moves the 100 atoms.
abbrev move_all : Invoke
move_all instruction seeds accounts = ok (cancel_accounts fresh 0 105)

-- The order without stock, at the next revision, closed.
abbrev closed : List ℕ
closed =
    order_tag
    ++ key_of 4
    ++ key_of 9
    ++ key_of 10
    ++ key_of 11
    ++ key_of 8
    ++ key_of 6
    ++ key_of 12
    ++ word 77 0
    ++ word 100 0
    ++ word 0 0
    ++ word 0 1
    ++ word 200 0
    ++ word 1 0
    ++ word 0 0
    ++ replicate 40 0
    ++ (2 ∷ replicate 7 0)

abbrev cancel_data : List ℕ
cancel_data = 16 ∷ replicate 7 0 ++ word 77 0

abbrev receipt : List ℕ
receipt = order_tag ++ word 77 0 ++ word 100 0 ++ word 1 0

cancel_run :
    cancel derive
      (key_of 1)
      (key_of 2)
      (key_of 3)
      move_all
      (cancel_accounts fresh 100 5)
      cancel_data
    ≡ ok (cancel_accounts closed 0 105, receipt)
unfolding cancel check_cancel balances transfer_checked_signed close_order checked_asset check_data
    inspect all_zero_bytes same_bytes u64_at from_le_bytes to_le_bytes put copy_from_slice
cancel_run = refl

cancel_final_example :
    Returned derive
      (key_of 1)
      (key_of 2)
      (key_of 3)
      move_all
      (cancel_accounts fresh 100 5)
      (cancel_accounts closed 0 105)
      cancel_data
    × Over derive (key_of 1) (key_of 2) (key_of 3) move_all (cancel_accounts closed 0 105)
cancel_final_example =
    cancel_final derive (key_of 1) (key_of 2) (key_of 3) move_all (cancel_accounts fresh 100 5)
      (cancel_accounts closed 0 105) cancel_data receipt cancel_run
