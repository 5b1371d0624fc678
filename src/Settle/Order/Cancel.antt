-- ===== src/Settle/Order/Cancel.antt =====
-- engine/stockmesh/programs/stocklana-settle/src/order.rs: `transfer_checked_signed` and `cancel`. The call of the token program,
-- `invoke_signed`, is a parameter: it takes the instruction, the seeds of the signer and the accounts,
-- and gives the accounts as the call leaves them.
use xtxc.Common.{
  ℕ, ◌+◌, ◌-◌, Bool, true, false, ◌&&◌, List, [], ◌∷◌, ltb, leb, ◌==◌, if◌then◌else◌, length,
  get_or, set, replicate, ◌++◌,
}
use xtxc.Settle.{
  Program, ok, panic, identity, bounds, conservation, need, ◌>>=◌, ◌>>◌, AccountInfo, same_bytes,
  checked_add, index,
}
use xtxc.Settle.Bytes.{to_le_bytes, slice, u64_at, copy_from_slice}
use xtxc.Settle.Exposure.{all_zero_bytes}
use xtxc.Settle.Asset.{checked_asset}
use xtxc.Settle.Layout
use xtxc.Settle.Order.{
  Derivation, order_seeds, is_order, has_status, names, order_tag, open_status, cancelled_status,
}

pub record AccountMeta : Type 0 where
  pub pubkey : List ℕ
  pub is_writable : Bool
  pub is_signer : Bool

pub record Instruction : Type 0 where
  pub program_id : List ℕ
  pub accounts : List AccountMeta
  pub data_bytes : List ℕ

abbrev pub Invoke : Type 0
Invoke = Instruction → List (List ℕ) → List AccountInfo → Program (List AccountInfo)

abbrev pub meta : AccountInfo → Bool → Bool → AccountMeta
meta account writable signer = record {
  pubkey = account.key;
  is_writable = writable;
  is_signer = signer;
}

-- `before.checked_sub(after) == Some(amount)`
abbrev pub moved : ℕ → ℕ → ℕ → Bool
moved before after amount = leb after before && before - after == amount

-- `state[offset] = byte`
abbrev pub set_byte : List ℕ → ℕ → ℕ → Program (List ℕ)
set_byte state offset byte = if ltb offset (length state) then ok (set state offset byte) else panic

-- The data of a cancelled order.
unfoldable pub close_order : List ℕ → ℕ → Program (List ℕ)
close_order state revision = do
  state1 ← copy_from_slice state Layout.remaining_stock (replicate 8 0)
  next ← checked_add revision 1 bounds
  state2 ← copy_from_slice state1 Layout.revision (to_le_bytes 8 next)
  set_byte state2 Layout.status cancelled_status

module _ (find_program_address : Derivation) (token token_2022 program : List ℕ)
    (invoke_signed : Invoke) where
  -- The accounts are those at the given places.
  unfoldable pub transfer_checked_signed :
      List AccountInfo → ℕ → ℕ → ℕ → ℕ → ℕ → ℕ → ℕ → ℕ → Program (List AccountInfo)
  transfer_checked_signed a source mint destination order token_program owner nonce amount = do
    from ← index a source
    m ← index a mint
    to ← index a destination
    o ← index a order
    p ← index a token_program
    w ← index a owner
    decimals ← index m.data_bytes 44
    need (same_bytes o.key (find_program_address (order_seeds w nonce) program).0) identity
    invoke_signed
        (record {
          program_id = p.key;
          accounts =
              meta from true false
              ∷ meta m false false
              ∷ meta to true false
              ∷ meta o false true
              ∷ [];
          data_bytes = 12 ∷ to_le_bytes 8 amount ++ (decimals ∷ []);
        })
        (order_seeds w nonce
          ++ (((find_program_address (order_seeds w nonce) program).1 ∷ []) ∷ []))
        a

  -- The balances of the escrow and of the destination.
  unfoldable pub balances : List AccountInfo → Bool → Program (ℕ × ℕ)
  balances a inspect = do
    owner ← index a 0
    order ← index a 1
    escrow ← index a 2
    destination ← index a 3
    mint ← index a 4
    token_program ← index a 5
    held ← checked_asset token token_2022 order escrow mint token_program inspect
    owned ← checked_asset token token_2022 owner destination mint token_program false
    ok (held, owned)

  -- The tests before any effect: the nonce, the stock left and the revision.
  unfoldable pub check_cancel : List AccountInfo → List ℕ → Program (ℕ × ℕ × ℕ)
  check_cancel a d = do
    need (length d == 16 && get_or d 0 0 == 16 && all_zero_bytes (slice d 1 7) && length a == 6)
        bounds
    owner ← index a 0
    order ← index a 1
    escrow ← index a 2
    destination ← index a 3
    mint ← index a 4
    need
        (owner.is_signer
          && owner.is_writable
          && order.is_writable
          && same_bytes order.owner program
          && escrow.is_writable
          && destination.is_writable)
        identity
    nonce ← u64_at d 8
    need (same_bytes order.key (find_program_address (order_seeds owner nonce) program).0) identity
    let state = order.data_bytes in
        do
          need
              (is_order state
                && has_status open_status state
                && names state Layout.owner owner
                && names state Layout.product_mint mint
                && names state Layout.escrow escrow)
              identity
          remaining ← u64_at state Layout.remaining_stock
          revision ← u64_at state Layout.revision
          ok (nonce, remaining, revision)

  -- `cancel`: the accounts that it leaves, and the receipt.
  unfoldable pub cancel : List AccountInfo → List ℕ → Program (List AccountInfo × List ℕ)
  cancel a d = do
    (nonce, remaining, revision) ← check_cancel a d
    (before, destination_before) ← balances a true
    need (leb remaining before) conservation
    b ← if ltb 0 remaining then transfer_checked_signed a 2 4 3 1 5 0 nonce remaining else ok a
    (after, destination_after) ← balances b false
    need (moved before after remaining && moved destination_after destination_before remaining)
        conservation
    order ← index b 1
    state ← close_order order.data_bytes revision
    ok (
      set b 1 (record order { data_bytes = state }),
      order_tag ++ to_le_bytes 8 nonce ++ to_le_bytes 8 remaining ++ to_le_bytes 8 (revision + 1),
    )
