-- ===== src/Settle/Order/Record.antt =====
-- engine/stockmesh/programs/stocklana-settle/src/order.rs: the terms of an ask, and the order that `place` writes for it.
use xtxc.Common.{
  ℕ, ◌+◌, ◌-◌, ◌^◌, Bool, true, false, not, ◌&&◌, List, [], ◌∷◌, ltb, leb, ◌==◌, if◌then◌else◌,
  length, get_or, set, replicate, ◌*◌,
}
use xtxc.Settle.{Program, ok, panic, ◌>>=◌, AccountInfo, index}
use xtxc.Settle.Bytes.{to_le_bytes, slice, u64_at, put}
use xtxc.Settle.Exposure.{all_zero_bytes}
use xtxc.Settle.Policy.{key_at}
use xtxc.Settle.Layout
use xtxc.Settle.Order.{Conversion, order_tag, order_len, open_status}

-- `dex::MAX_INPUT`
abbrev pub max_input : ℕ
max_input = 100_000_000_000_000

-- What the instruction asks for.
pub record Ask : Type 0 where
  pub order_nonce : ℕ
  pub stock_atoms : ℕ
  pub minimum_cash_per_share : ℕ
  pub expires_slot : ℕ
  pub policy_version : ℕ
  pub maximum_policy_age : ℕ
  pub product : Conversion
  pub instrument : List ℕ

-- The limits of an ask.
abbrev pub is_placeable : Ask → Bool
is_placeable t =
    ltb t.order_nonce (2 ^ 64 - 1)
    && ltb 0 t.stock_atoms
    && leb t.stock_atoms max_input
    && ltb 0 t.minimum_cash_per_share
    && ltb 0 t.policy_version
    && leb 1 t.maximum_policy_age
    && leb t.maximum_policy_age 150
    && leb 1 t.product.conservative_bps
    && leb t.product.conservative_bps 10_000
    && ltb 0 t.product.numerator
    && ltb 0 t.product.denominator
    && not (all_zero_bytes t.instrument)

-- The instruction's bytes.
unfoldable pub read_ask : List ℕ → Program Ask
read_ask d = do
  order_nonce ← u64_at d 8
  stock_atoms ← u64_at d 16
  minimum_cash_per_share ← u64_at d 24
  expires_slot ← u64_at d 32
  policy_version ← u64_at d 40
  maximum_policy_age ← u64_at d 48
  numerator ← u64_at d 56
  denominator ← u64_at d 64
  instrument ← key_at d 72
  ok (record {
    order_nonce = order_nonce;
    stock_atoms = stock_atoms;
    minimum_cash_per_share = minimum_cash_per_share;
    expires_slot = expires_slot;
    policy_version = policy_version;
    maximum_policy_age = maximum_policy_age;
    product = record {
      model = get_or d 2 0;
      conservative_bps = get_or d 4 0 + 256 * get_or d 5 0;
      numerator = numerator;
      denominator = denominator;
    };
    instrument = instrument;
  })

-- `state[offset..offset + size].copy_from_slice(content)`, and `state[offset] = byte`.
pub record Field : Type 0 where
  pub offset : ℕ
  pub size : ℕ
  pub content : List ℕ

abbrev pub field : ℕ → ℕ → List ℕ → Field
field offset size content = record { offset = offset; size = size; content = content }

unfoldable pub write_fields : List Field → List ℕ → Program (List ℕ)
write_fields [] state = ok state
write_fields (f ∷ fs) state =
    elim (length f.content == f.size && leb (f.offset + f.size) (length state)) [
      | true ↦ write_fields fs (put state f.offset f.content)
      | false ↦ panic
    ]

-- The fields of a new order, in the order of the writes.
abbrev pub fields : List ℕ → List ℕ → List ℕ → List ℕ → List ℕ → List ℕ → Ask → ℕ → List Field
fields owner claim cash_mint product_mint escrow cash_destination t slot =
    field 0 8 order_tag
    ∷ field Layout.owner 32 owner
    ∷ field Layout.instrument 32 t.instrument
    ∷ field Layout.policy 32 claim
    ∷ field Layout.cash_mint 32 cash_mint
    ∷ field Layout.product_mint 32 product_mint
    ∷ field Layout.escrow 32 escrow
    ∷ field Layout.cash_destination 32 cash_destination
    ∷ field Layout.order_nonce 8 (to_le_bytes 8 t.order_nonce)
    ∷ field Layout.total_stock 8 (to_le_bytes 8 t.stock_atoms)
    ∷ field Layout.remaining_stock 8 (to_le_bytes 8 t.stock_atoms)
    ∷ field Layout.min_cash_per_share 8 (to_le_bytes 8 t.minimum_cash_per_share)
    ∷ field Layout.expires_slot 8 (to_le_bytes 8 t.expires_slot)
    ∷ field Layout.revision 8 (to_le_bytes 8 0)
    ∷ field Layout.filled_cash 8 (to_le_bytes 8 0)
    ∷ field Layout.created_slot 8 (to_le_bytes 8 slot)
    ∷ field Layout.initial_policy_version 8 (to_le_bytes 8 t.policy_version)
    ∷ field Layout.numerator 8 (to_le_bytes 8 t.product.numerator)
    ∷ field Layout.denominator 8 (to_le_bytes 8 t.product.denominator)
    ∷ field Layout.model 1 (t.product.model ∷ [])
    ∷ field Layout.conservative_bps 2 (to_le_bytes 2 t.product.conservative_bps)
    ∷ field Layout.status 1 (open_status ∷ [])
    ∷ []

-- `state.fill(0)` and the writes.
unfoldable pub write_order :
    List ℕ → List ℕ → List ℕ → List ℕ → List ℕ → List ℕ → Ask → ℕ → List ℕ → Program (List ℕ)
write_order owner claim cash_mint product_mint escrow cash_destination t slot state =
    write_fields (fields owner claim cash_mint product_mint escrow cash_destination t slot)
      (replicate (length state) 0)

-- `set_return_data(&state[..LEN])`
abbrev pub returned : List ℕ → Program (List ℕ)
returned state = if leb order_len (length state) then ok (slice state 0 order_len) else panic

-- The order is written to its account, the second of those that the calls leave.
unfoldable pub record_order :
    List AccountInfo → List AccountInfo → Ask → ℕ → Program (List AccountInfo × List ℕ)
record_order a c t slot = do
  owner ← index a 0
  escrow ← index a 3
  destination ← index a 4
  cash_mint ← index a 5
  product_mint ← index a 6
  claim ← index a 10
  order ← index c 1
  state ←
      write_order owner.key claim.key cash_mint.key product_mint.key escrow.key destination.key t
        slot order.data_bytes
  receipt ← returned state
  ok (set c 1 (record order { data_bytes = state }), receipt)
