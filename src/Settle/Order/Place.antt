-- ===== src/Settle/Order/Place.antt =====
-- engine/stockmesh/programs/stocklana-settle/src/order.rs: `place`, which escrows the stock of an ask and writes its order. The instructions of
-- the system program, the minimum balance of an account and the runtime's call of another program are
-- parameters; the accounts are as the calls leave them.
use xtxc.Common.{
  ℕ, ◌-◌, Bool, true, false, ◌&&◌, List, [], ◌∷◌, ltb, leb, ◌==◌, if◌then◌else◌, length, get_or,
  ◌++◌,
}
use xtxc.Common.Int.{pos}
use xtxc.Settle.{
  Program, ok, identity, expired, bounds, conservation, need, ◌>>=◌, ◌>>◌, AccountInfo, same_bytes,
  checked_add, index,
}
use xtxc.Settle.Bytes.{to_le_bytes, slice}
use xtxc.Settle.Exposure.{all_zero_bytes, leb_ℤ, convert}
use xtxc.Settle.Asset.{checked_asset}
use xtxc.Settle.Policy.{validate}
use xtxc.Settle.Order.{Derivation, Clock, order_seeds, order_len, ceil_q32}
use xtxc.Settle.Order.Cancel.{Instruction, Invoke, meta, moved}
use xtxc.Settle.Order.Record.{Ask, is_placeable, read_ask, record_order}

-- The instructions of the system program and its id, and `Rent::minimum_balance`.
pub record System : Type 0 where
  pub id : List ℕ
  pub transfer : List ℕ → List ℕ → ℕ → Instruction
  pub allocate : List ℕ → ℕ → Instruction
  pub assign : List ℕ → List ℕ → Instruction
  pub minimum_balance : ℕ → ℕ

module _ (find_program_address : Derivation) (token token_2022 program : List ℕ)
    (invoke_signed : Invoke) (system : System) where
  -- The accounts are those at the given places.
  unfoldable pub transfer_checked :
      List AccountInfo → ℕ → ℕ → ℕ → ℕ → ℕ → ℕ → Program (List AccountInfo)
  transfer_checked a source mint destination authority token_program amount = do
    from ← index a source
    m ← index a mint
    to ← index a destination
    o ← index a authority
    p ← index a token_program
    decimals ← index m.data_bytes 44
    invoke_signed
        (record {
          program_id = p.key;
          accounts =
              meta from true false
              ∷ meta m false false
              ∷ meta to true false
              ∷ meta o false true
              ∷ [];
          data_bytes = 12 ∷ to_le_bytes 8 amount ++ (decimals ∷ []);
        })
        [] a

  -- The balances of the source and of the escrow.
  unfoldable pub escrowed : List AccountInfo → Bool → Program (ℕ × ℕ)
  escrowed a inspect = do
    owner ← index a 0
    order ← index a 1
    source ← index a 2
    escrow ← index a 3
    mint ← index a 6
    token_program ← index a 7
    held ← checked_asset token token_2022 owner source mint token_program inspect
    locked ← checked_asset token token_2022 order escrow mint token_program false
    ok (held, locked)

  -- The form of the instruction and of its accounts.
  unfoldable pub check_form : List AccountInfo → List ℕ → Program (Unit {0})
  check_form a d = do
    need
        (length d == 104
          && get_or d 0 0 == 15
          && leb (get_or d 1 0) 1
          && leb (get_or d 2 0) 1
          && get_or d 3 0 == 0
          && all_zero_bytes (slice d 6 2)
          && length a == 12)
        bounds
    owner ← index a 0
    order ← index a 1
    source ← index a 2
    escrow ← index a 3
    destination ← index a 4
    system_program ← index a 11
    need
        (owner.is_signer
          && owner.is_writable
          && order.is_writable
          && source.is_writable
          && escrow.is_writable
          && destination.is_writable
          && same_bytes system_program.key system.id)
        identity

  -- The order's address is its own and unused, and the product's claim and policy are in force.
  unfoldable pub check_terms : List AccountInfo → Bool → Ask → Clock → Program (Unit {0})
  check_terms a closed t clock = do
    need (is_placeable t) bounds
    need (leb_ℤ (pos 0) clock.unix_timestamp && ltb clock.slot t.expires_slot) expired
    latest ← checked_add clock.slot 1_000_000 bounds
    need (leb t.expires_slot latest) expired
    owner ← index a 0
    order ← index a 1
    need
        (same_bytes order.key (find_program_address (order_seeds owner t.order_nonce) program).0
          && length order.data_bytes == 0
          && same_bytes order.owner system.id)
        identity
    validate find_program_address program a
        (record { claim = 10; policy = 9; cash_mint = 5; product_mint = 6; token_program = 7 })
        (record {
          version = t.policy_version;
          max_age = t.maximum_policy_age;
          allow_underlying_closed = closed;
          deadline = clock.slot;
        })
        t.product clock
    policy ← index a 9
    need (same_bytes (slice policy.data_bytes 40 32) t.instrument) identity

  -- The stock is there, the escrow is empty, and the ask is worth a payment.
  unfoldable pub check_stock : List AccountInfo → Ask → Clock → Program (ℕ × ℕ)
  check_stock a t clock = do
    owner ← index a 0
    destination ← index a 4
    cash_mint ← index a 5
    product_mint ← index a 6
    cash_program ← index a 8
    (source_before, escrow_before) ← escrowed a true
    cash_before ← checked_asset token token_2022 owner destination cash_mint cash_program true
    need (leb t.stock_atoms source_before && escrow_before == 0) bounds
    exposure ←
        convert token_2022 product_mint t.product.model t.product.conservative_bps
          t.product.numerator t.product.denominator t.stock_atoms clock.unix_timestamp
    need (ltb 0 exposure) bounds
    price ← ceil_q32 exposure t.minimum_cash_per_share
    need (ltb 0 price) bounds
    ok (source_before, escrow_before)

  -- The account of the order is funded, made and given to the program.
  unfoldable pub create : List AccountInfo → ℕ → Program (List AccountInfo)
  create a order_nonce = do
    owner ← index a 0
    order ← index a 1
    let rent = system.minimum_balance order_len in
        let (address, bump) = find_program_address (order_seeds owner order_nonce) program in
        let seeds = order_seeds owner order_nonce ++ ((bump ∷ []) ∷ []) in
        do
          b ←
              if ltb order.lamports rent
              then invoke_signed (system.transfer owner.key order.key (rent - order.lamports)) [] a
              else ok a
          c ← invoke_signed (system.allocate order.key order_len) seeds b
          invoke_signed (system.assign order.key program) seeds c

  -- `place`: the accounts that it leaves, and the data that it returns.
  unfoldable pub place : List AccountInfo → List ℕ → Clock → Program (List AccountInfo × List ℕ)
  place a d clock = do
    check_form a d
    t ← read_ask d
    check_terms a (get_or d 1 0 == 1) t clock
    (source_before, escrow_before) ← check_stock a t clock
    b ← create a t.order_nonce
    c ← transfer_checked b 2 6 3 0 7 t.stock_atoms
    (source_after, escrow_after) ← escrowed c false
    need
        (moved source_before source_after t.stock_atoms
          && moved escrow_after escrow_before t.stock_atoms)
        conservation
    record_order a c t clock.slot
