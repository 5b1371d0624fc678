-- ===== src/Settle/Order.antt =====
-- engine/stockmesh/programs/stocklana-settle/src/order.rs: the data of a resting ask, and the instructions that fill and cancel it.
-- The runtime's derivation of addresses, its clock and the call of the token program are parameters.
-- Where the data of an account is indexed, its length has been checked before.
pub mod Cancel
pub mod Record
pub mod Place
pub mod Fields
pub mod Placed
pub mod Terms
pub mod Fillable
pub mod Escrowed
pub mod Offered
pub mod Words
pub mod Fills
pub mod Sequence
pub mod Validated
pub mod Balances
pub mod Closed
use xtxc.Common.{
  ℕ, zero, suc, ◌+◌, ◌-◌, ◌*◌, ◌/◌, ◌^◌, Bool, true, false, not, ◌&&◌, ◌||◌, List, [], ◌∷◌, ltb,
  leb, ◌==◌, if◌then◌else◌, length, get_or, replicate, All,
}
use xtxc.Common.Int.{ℤ}
use xtxc.Settle.{
  Program, ok, err, panic, identity, replay, expired, bounds, min_out, conservation, need, ◌>>=◌,
  ◌>>◌, AccountInfo, same_bytes, checked_add, checked_sub, index,
}
use xtxc.Settle.Bytes.{to_le_bytes, slice, u64_at, copy_from_slice}
use xtxc.Settle.Exposure.{convert}
use xtxc.Settle.Asset.{checked_asset}
use xtxc.Settle.Layout

-- `b"SKEWORD1"`
abbrev pub order_tag : List ℕ
order_tag = 83 ∷ 75 ∷ 69 ∷ 87 ∷ 79 ∷ 82 ∷ 68 ∷ 49 ∷ []

abbrev pub order_len : ℕ
order_len = 336

abbrev pub open_status : ℕ
open_status = 1

abbrev pub cancelled_status : ℕ
cancelled_status = 2

-- The product of two words fits u128, and so does its sum with the largest remainder.
unfoldable pub ceil_q32 : ℕ → ℕ → Program ℕ
ceil_q32 value price =
    let result = (value * price + (2 ^ 32 - 1)) / 2 ^ 32 in
    if ltb result (2 ^ 64) then ok result else err bounds

abbrev pub is_order : List ℕ → Bool
is_order state = length state == order_len && same_bytes (slice state 0 8) order_tag

abbrev pub has_status : ℕ → List ℕ → Bool
has_status status state = get_or state Layout.status 0 == status

abbrev pub names : List ℕ → ℕ → AccountInfo → Bool
names state offset account = same_bytes (slice state offset 32) account.key

-- The order is of these accounts.
unfoldable pub binds :
    List ℕ
    → AccountInfo
    → AccountInfo
    → AccountInfo
    → AccountInfo
    → AccountInfo
    → AccountInfo
    → Bool
binds state owner policy cash_mint product_mint escrow cash_destination =
    names state Layout.owner owner
    && names state Layout.policy policy
    && names state Layout.cash_mint cash_mint
    && names state Layout.product_mint product_mint
    && names state Layout.escrow escrow
    && names state Layout.cash_destination cash_destination

-- `record_fill`, from the data of the order to its data.
unfoldable pub record_fill : List ℕ → ℕ → ℕ → ℕ → Program (List ℕ)
record_fill state expected_revision stock_atoms cash_atoms = do
  need (is_order state && has_status open_status state) replay
  revision ← u64_at state Layout.revision
  need (revision == expected_revision) replay
  left ← u64_at state Layout.remaining_stock
  remaining ← checked_sub left stock_atoms conservation
  cash ← u64_at state Layout.filled_cash
  filled ← checked_add cash cash_atoms conservation
  state1 ← copy_from_slice state Layout.remaining_stock (to_le_bytes 8 remaining)
  next ← checked_add expected_revision 1 bounds
  state2 ← copy_from_slice state1 Layout.revision (to_le_bytes 8 next)
  copy_from_slice state2 Layout.filled_cash (to_le_bytes 8 filled)

pub record Clock : Type 0 where
  pub slot : ℕ
  pub unix_timestamp : ℤ

-- The accounts of a fill, by their places in the list of accounts.
pub record Places : Type 0 where
  pub order : ℕ
  pub owner : ℕ
  pub escrow : ℕ
  pub cash_destination : ℕ
  pub policy : ℕ
  pub cash_mint : ℕ
  pub product_mint : ℕ
  pub product_program : ℕ

-- How the product converts to exposure.
pub record Conversion : Type 0 where
  pub model : ℕ
  pub conservative_bps : ℕ
  pub numerator : ℕ
  pub denominator : ℕ

-- `b"onebook"`
abbrev pub onebook : List ℕ
onebook = 111 ∷ 110 ∷ 101 ∷ 98 ∷ 111 ∷ 111 ∷ 107 ∷ []

-- `Pubkey::find_program_address(seeds, program)`: the address and the bump.
abbrev pub Derivation : Type 0
Derivation = List (List ℕ) → List ℕ → List ℕ × ℕ

-- The seeds of the order that `owner` placed with a nonce.
abbrev pub order_seeds : AccountInfo → ℕ → List (List ℕ)
order_seeds owner nonce = onebook ∷ owner.key ∷ to_le_bytes 8 nonce ∷ []

-- `[order, ...].iter().all(|index| *index < a.len())`
abbrev pub in_range : ℕ → Places → Bool
in_range count at =
    ltb at.order count
    && ltb at.owner count
    && ltb at.escrow count
    && ltb at.cash_destination count
    && ltb at.policy count
    && ltb at.cash_mint count
    && ltb at.product_mint count
    && ltb at.product_program count

module _ (find_program_address : Derivation) (token token_2022 program : List ℕ) where
  -- The tests of the data of the order, and the nonce, the stock left and the price.
  unfoldable pub check_resting :
      List AccountInfo → Places → List ℕ → ℕ → ℕ → ℕ → Program (ℕ × ℕ × ℕ)
  check_resting a at state expected_revision stock_atoms slot = do
    owner ← index a at.owner
    policy ← index a at.policy
    cash_mint ← index a at.cash_mint
    product_mint ← index a at.product_mint
    escrow ← index a at.escrow
    cash_destination ← index a at.cash_destination
    order ← index a at.order
    need (is_order state && binds state owner policy cash_mint product_mint escrow cash_destination)
        identity
    need (has_status open_status state) replay
    revision ← u64_at state Layout.revision
    need (revision == expected_revision) replay
    expires ← u64_at state Layout.expires_slot
    need (leb slot expires) expired
    nonce ← u64_at state Layout.order_nonce
    need (same_bytes order.key (find_program_address (order_seeds owner nonce) program).0) identity
    remaining ← u64_at state Layout.remaining_stock
    minimum ← u64_at state Layout.min_cash_per_share
    need (leb stock_atoms remaining) bounds
    ok (nonce, remaining, minimum)

  -- `validate_fill`, which gives the nonce.
  unfoldable pub validate_fill :
      List AccountInfo → Places → ℕ → ℕ → ℕ → Conversion → Clock → Program ℕ
  validate_fill a at expected_revision stock_atoms cash_atoms product clock = do
    need (in_range (length a) at) identity
    order ← index a at.order
    owner ← index a at.owner
    need
        (order.is_writable
          && same_bytes order.owner program
          && not owner.is_writable
          && ltb 0 stock_atoms
          && ltb 0 cash_atoms)
        identity
    (nonce, remaining, minimum) ←
        check_resting a at order.data_bytes expected_revision stock_atoms clock.slot
    escrow ← index a at.escrow
    product_mint ← index a at.product_mint
    product_program ← index a at.product_program
    balance ← checked_asset token token_2022 order escrow product_mint product_program false
    need (leb remaining balance) conservation
    exposure ←
        convert token_2022 product_mint product.model product.conservative_bps product.numerator
          product.denominator stock_atoms clock.unix_timestamp
    price ← ceil_q32 exposure minimum
    need (ltb 0 exposure && leb price cash_atoms) min_out
    ok nonce
