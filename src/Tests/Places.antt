-- ===== src/Tests/Places.antt =====
-- Tests of the placement of asks.
use xtxc.Common.{ℕ, ◌≡◌, refl, List, [], ◌∷◌, ◌++◌, replicate, if◌then◌else◌, true, false, All}
use xtxc.Common.Int.{pos}
use xtxc.Settle.{ok, AccountInfo, same_bytes}
use xtxc.Settle.Bytes.{from_le_bytes, to_le_bytes, u64_at, put}
use xtxc.Settle.Exposure.{exposure_q32, scaled_of, converter, convert, all_zero_bytes}
use xtxc.Settle.Asset.{checked_asset, check_data, inspect}
use xtxc.Settle.Policy.{
  Demand, key_at, check_policy, validate_policy_for_pair, validate, policy_tag, claim_tag,
}
use xtxc.Settle.Policy.Permits.{Permitted, validate_policy_for_pair-Permitted}
use xtxc.Settle.Order.{Derivation, Clock, order_tag, ceil_q32}
use xtxc.Settle.Order.Cancel.{Invoke, Instruction}
use xtxc.Settle.Order.Record.{read_ask, write_fields, record_order, write_order}
use xtxc.Settle.Order.Place.{
  System, transfer_checked, escrowed, check_form, check_terms, check_stock, create, place,
}
use xtxc.Settle.Order.Words.{Bytes, all_bytes, all_bytes-Bytes}
use xtxc.Settle.Order.Offered.{Offered, place-Offered}
use xtxc.Tests.Asks.{key_of, word, account, tokens, mint_data}

-- The accounts: the classic token program is 1, the system program 2, the program of the asks 3, the
-- owner 4, the order 5, the policy 9 and the claim 10. The addresses differ by the number of seeds.
abbrev derive : Derivation
derive (x ∷ y ∷ z ∷ []) program = (key_of 5, 255)
derive (x ∷ y ∷ z ∷ w ∷ []) program = (key_of 10, 255)
derive seeds program = (key_of 9, 255)

abbrev data_account : ℕ → List ℕ → AccountInfo
data_account key content = record {
  key = key_of key;
  owner = key_of 3;
  lamports = 1;
  data_bytes = content;
  is_signer = false;
  is_writable = false;
  executable = false;
}

abbrev policy_data : List ℕ
policy_data =
    policy_tag
    ++ key_of 13
    ++ key_of 14
    ++ key_of 0
    ++ key_of 11
    ++ key_of 8
    ++ key_of 15
    ++ word 3 0
    ++ word 140 0
    ++ word 300 0
    ++ (17 ∷ [])

abbrev claim_data : List ℕ
claim_data =
    claim_tag
    ++ key_of 13
    ++ key_of 14
    ++ key_of 0
    ++ key_of 11
    ++ key_of 8
    ++ key_of 9
    ++ key_of 1
    ++ word 3 0
    ++ word 1 0
    ++ word 1 0
    ++ word 1 0
    ++ word 140 0
    ++ word 300 0
    ++ (16 ∷ 39 ∷ 0 ∷ 1 ∷ 0 ∷ 0 ∷ 0 ∷ 0 ∷ [])

-- A token account of the cash, the mint 11.
abbrev cash_tokens : List ℕ
cash_tokens = key_of 11 ++ key_of 4 ++ word 5 0 ++ replicate 36 0 ++ (1 ∷ replicate 56 0)

abbrev accounts_with : ℕ → List ℕ → ℕ → ℕ → List AccountInfo
accounts_with order_owner content held locked =
    account 4 2 [] true true
    ∷ account 5 order_owner content false true
    ∷ account 6 1 (tokens 4 held) false true
    ∷ account 7 1 (tokens 5 locked) false true
    ∷ account 12 1 cash_tokens false true
    ∷ account 11 1 mint_data false false
    ∷ account 8 1 mint_data false false
    ∷ account 1 2 [] false false
    ∷ account 1 2 [] false false
    ∷ data_account 9 policy_data
    ∷ data_account 10 claim_data
    ∷ account 2 2 [] false false
    ∷ []

-- The token program moves 100 atoms; the system program makes the order of 336 bytes before.
abbrev runtime : Invoke
runtime instruction seeds accounts =
    if same_bytes instruction.program_id (key_of 1)
    then ok (accounts_with 3 (replicate 336 0) 20 100)
    else ok accounts

abbrev of_system : List ℕ → Instruction
of_system content = record { program_id = key_of 2; accounts = []; data_bytes = content }

abbrev system : System
system = record {
  id = key_of 2;
  transfer = λ source destination amount. of_system (to_le_bytes 8 amount);
  allocate = λ address space. of_system (to_le_bytes 8 space);
  assign = λ address owner. of_system owner;
  minimum_balance = λ space. space;
}

abbrev place_data : List ℕ
place_data =
    15 ∷ 0 ∷ 0 ∷ 0 ∷ 16 ∷ 39 ∷ 0 ∷ 0 ∷ word 77 0
    ++ word 100 0
    ++ word 0 1
    ++ word 200 0
    ++ word 3 0
    ++ word 50 0
    ++ word 1 0
    ++ word 1 0
    ++ key_of 14

abbrev placed : List ℕ
placed =
    order_tag
    ++ key_of 4
    ++ key_of 14
    ++ key_of 10
    ++ key_of 11
    ++ key_of 8
    ++ key_of 7
    ++ key_of 12
    ++ word 77 0
    ++ word 100 0
    ++ word 100 0
    ++ word 0 1
    ++ word 200 0
    ++ word 0 0
    ++ word 0 0
    ++ word 150 0
    ++ word 3 0
    ++ (0 ∷ 16 ∷ 39 ∷ replicate 5 0)
    ++ word 1 0
    ++ word 1 0
    ++ (1 ∷ replicate 7 0)

abbrev clock : Clock
clock = record { slot = 150; unix_timestamp = pos 1_000 }

abbrev before : List AccountInfo
before = accounts_with 2 [] 120 0

form_run :
    check_form derive (key_of 1) (key_of 16) (key_of 3) runtime system before place_data ≡ ok tt
unfolding check_form all_zero_bytes same_bytes
form_run = refl

place_run :
    place derive (key_of 1) (key_of 16) (key_of 3) runtime system before place_data clock
    ≡ ok (accounts_with 3 placed 20 100, placed)
unfolding place check_form read_ask check_terms check_stock create transfer_checked escrowed
    record_order write_order write_fields validate validate_policy_for_pair check_policy key_at
    ceil_q32 checked_asset check_data inspect all_zero_bytes same_bytes u64_at from_le_bytes
    to_le_bytes put convert converter scaled_of exposure_q32
place_run = refl

keys_are_bytes : All (λ (x : AccountInfo). Bytes x.key) before
unfolding all_bytes
keys_are_bytes = (
  all_bytes-Bytes (key_of 4) refl,
  (
    all_bytes-Bytes (key_of 5) refl,
    (
      all_bytes-Bytes (key_of 6) refl,
      (
        all_bytes-Bytes (key_of 7) refl,
        (
          all_bytes-Bytes (key_of 12) refl,
          (
            all_bytes-Bytes (key_of 11) refl,
            (
              all_bytes-Bytes (key_of 8) refl,
              (
                all_bytes-Bytes (key_of 1) refl,
                (
                  all_bytes-Bytes (key_of 1) refl,
                  (
                    all_bytes-Bytes (key_of 9) refl,
                    (all_bytes-Bytes (key_of 10) refl, (all_bytes-Bytes (key_of 2) refl, tt)),
                  ),
                ),
              ),
            ),
          ),
        ),
      ),
    ),
  ),
)

place_data_is_bytes : Bytes place_data
unfolding all_bytes
place_data_is_bytes = all_bytes-Bytes place_data refl

place-Offered_example :
    Offered derive
      (key_of 1)
      (key_of 16)
      (key_of 3)
      runtime
      system
      before
      (accounts_with 3 placed 20 100)
      place_data
      (account 5 3 placed false true)
place-Offered_example =
    place-Offered derive (key_of 1) (key_of 16) (key_of 3) runtime system before
      (accounts_with 3 placed 20 100) place_data placed clock (account 5 3 placed false true)
      place_data_is_bytes keys_are_bytes place_run refl refl

abbrev demand : Demand
demand = record { version = 3; max_age = 50; allow_underlying_closed = false; deadline = 160 }

policy_run : validate_policy_for_pair derive (key_of 3) before 9 demand 5 6 clock ≡ ok tt
unfolding validate_policy_for_pair check_policy key_at same_bytes u64_at from_le_bytes
policy_run = refl

validate_policy_for_pair-Permitted_example : Permitted derive (key_of 3) before 9 5 6 demand 150
validate_policy_for_pair-Permitted_example =
    validate_policy_for_pair-Permitted derive (key_of 3) before 9 5 6 demand clock policy_run
