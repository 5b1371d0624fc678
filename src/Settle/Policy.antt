-- ===== src/Settle/Policy.antt =====
-- engine/stockmesh/programs/stocklana-settle/src/stock.rs and claim.rs: the checks of a trading policy, `validate_policy_for_pair`, and of a
-- product's claim with its policy, `validate`. Where the data of an account is indexed, its length has
-- been checked before.
pub mod Permits
use xtxc.Common.{
  ℕ, ◌+◌, ◌-◌, Bool, true, false, not, ◌&&◌, ◌||◌, List, [], ◌∷◌, ltb, leb, ◌==◌, if◌then◌else◌,
  length, get_or,
}
use xtxc.Optimizer.{bit}
use xtxc.Settle.{
  Program, ok, err, panic, adapter, identity, expired, bounds, need, ◌>>=◌, ◌>>◌, AccountInfo,
  same_bytes, index,
}
use xtxc.Settle.Bytes.{from_le_bytes, slice, u64_at}
use xtxc.Settle.Order.{Derivation, Clock, Conversion, names}

-- `ad(dex::key(data, offset))?`
unfoldable pub key_at : List ℕ → ℕ → Program (List ℕ)
key_at d offset = if ltb (length d) (offset + 32) then err adapter else ok (slice d offset 32)

-- `b"SKEWSTK2"`, `b"stock2"`, `b"SKEWCLM1"` and `b"claim"`
abbrev pub policy_tag : List ℕ
policy_tag = 83 ∷ 75 ∷ 69 ∷ 87 ∷ 83 ∷ 84 ∷ 75 ∷ 50 ∷ []

abbrev pub stock2 : List ℕ
stock2 = 115 ∷ 116 ∷ 111 ∷ 99 ∷ 107 ∷ 50 ∷ []

abbrev pub claim_tag : List ℕ
claim_tag = 83 ∷ 75 ∷ 69 ∷ 87 ∷ 67 ∷ 76 ∷ 77 ∷ 49 ∷ []

abbrev pub claim_word : List ℕ
claim_word = 99 ∷ 108 ∷ 97 ∷ 105 ∷ 109 ∷ []

abbrev pub policy_len : ℕ
policy_len = 225

abbrev pub claim_len : ℕ
claim_len = 288

-- `u64_at(data, offset)? == value` where the word is in range.
abbrev pub has_word : List ℕ → ℕ → ℕ → ℕ → Bool
has_word d offset n value = from_le_bytes (slice d offset n) == value

-- What a caller demands of a policy.
pub record Demand : Type 0 where
  pub version : ℕ
  pub max_age : ℕ
  pub allow_underlying_closed : Bool
  pub deadline : ℕ

-- The policy has been updated lately, and the slot and the deadline are no later than its end.
abbrev pub is_current : ℕ → ℕ → ℕ → ℕ → ℕ → Bool
is_current slot updated expires max_age deadline =
    leb updated slot && leb (slot - updated) max_age && leb slot expires && leb deadline expires

-- Secondary trade is on, no halt is, and the underlying is open where it has to be.
abbrev pub is_tradable : ℕ → Bool → Bool
is_tradable flags allow_underlying_closed =
    bit flags 0 && not (bit flags 3) && (bit flags 4 || allow_underlying_closed)

-- The accounts of a claim, by their places in the list of accounts.
pub record ClaimPlaces : Type 0 where
  pub claim : ℕ
  pub policy : ℕ
  pub cash_mint : ℕ
  pub product_mint : ℕ
  pub token_program : ℕ

abbrev pub claims_in_range : ℕ → ClaimPlaces → Bool
claims_in_range count at =
    ltb at.claim count
    && ltb at.policy count
    && ltb at.cash_mint count
    && ltb at.product_mint count
    && ltb at.token_program count

-- The claim is of these accounts, on the terms given.
abbrev pub is_claim :
    List ℕ → AccountInfo → AccountInfo → AccountInfo → AccountInfo → ℕ → Conversion → Bool
is_claim state policy cash_mint product_mint token_program version product =
    length state == claim_len
    && same_bytes (slice state 0 8) claim_tag
    && get_or state 283 0 == 1
    && names state 168 policy
    && names state 104 cash_mint
    && names state 136 product_mint
    && names state 200 token_program
    && has_word state 232 8 version
    && has_word state 248 8 product.numerator
    && has_word state 256 8 product.denominator
    && has_word state 280 2 product.conservative_bps
    && get_or state 282 0 == product.model

module _ (find_program_address : Derivation) (program : List ℕ) where
  -- The tests of the data of a policy.
  unfoldable pub check_policy :
      AccountInfo → AccountInfo → AccountInfo → Demand → Clock → Program (Unit {0})
  check_policy policy input_mint output_mint demand clock =
      let p = policy.data_bytes in
      do
        need (length p == policy_len && same_bytes (slice p 0 8) policy_tag) identity
        authority ← key_at p 8
        instrument ← key_at p 40
        input ← key_at p 104
        output ← key_at p 136
        rights ← key_at p 168
        need
            (same_bytes policy.key
                (find_program_address
                  (stock2 ∷ authority ∷ instrument ∷ input ∷ output ∷ rights ∷ []) program).0
              && has_word p 200 8 demand.version)
            identity
        updated ← u64_at p 208
        expires ← u64_at p 216
        need (is_current clock.slot updated expires demand.max_age demand.deadline) expired
        need (is_tradable (get_or p 224 0) demand.allow_underlying_closed) expired
        need (same_bytes input_mint.key input && same_bytes output_mint.key output) identity

  -- `stock::validate_policy_for_pair`
  unfoldable pub validate_policy_for_pair :
      List AccountInfo → ℕ → Demand → ℕ → ℕ → Clock → Program (Unit {0})
  validate_policy_for_pair a place demand input_mint_index output_mint_index clock = do
    need (ltb place (length a) && ltb 1 place && leb 1 demand.max_age && leb demand.max_age 150)
        bounds
    need (ltb input_mint_index (length a) && ltb output_mint_index (length a)) bounds
    policy ← index a place
    need (same_bytes policy.owner program && not policy.is_writable && not policy.executable)
        identity
    input_mint ← index a input_mint_index
    output_mint ← index a output_mint_index
    check_policy policy input_mint output_mint demand clock

  -- `claim::validate`
  unfoldable pub validate :
      List AccountInfo → ClaimPlaces → Demand → Conversion → Clock → Program (Unit {0})
  validate a at demand product clock = do
    need (claims_in_range (length a) at) bounds
    claim ← index a at.claim
    policy ← index a at.policy
    cash_mint ← index a at.cash_mint
    product_mint ← index a at.product_mint
    token_program ← index a at.token_program
    need
        (same_bytes claim.owner program
          && not claim.is_writable
          && not claim.executable
          && is_claim claim.data_bytes policy cash_mint product_mint token_program demand.version
              product)
        identity
    authority ← key_at claim.data_bytes 8
    instrument ← key_at claim.data_bytes 40
    need
        (same_bytes claim.key
          (find_program_address (claim_word ∷ authority ∷ instrument ∷ product_mint.key ∷ [])
            program).0)
        identity
    expires ← u64_at claim.data_bytes 272
    need (leb clock.slot expires && leb demand.deadline expires) expired
    validate_policy_for_pair a at.policy demand at.cash_mint at.product_mint clock
