-- ===== src/Settle/Order/Balances.antt =====
-- engine/stockmesh/programs/stocklana-settle/src/order.rs: the stock and the balances that `cancel` reads.
use xtxc.Common.{
  ℕ, ◌≡◌, refl, ap, subst, ◌∙◌, Bool, false, ◌&&◌, List, [], ◌∷◌, ◌==◌, length, set, get_or,
}
use xtxc.Settle.{
  Program, ok, AccountInfo, identity, bounds, need, index, same_bytes, >>=-eq-ok, ok-inj,
}
use xtxc.Settle.Bytes.{u64_at, slice}
use xtxc.Settle.Exposure.{all_zero_bytes}
use xtxc.Settle.Asset.{checked_asset}
use xtxc.Settle.Asset.Amounts.{Amount, checked_asset-amount, first_amount, second_amount}
use xtxc.Settle.Layout
use xtxc.Settle.Order.{Derivation, is_order, has_status, names, open_status, order_seeds}
use xtxc.Settle.Order.Cancel.{Invoke, check_cancel, balances}

module _ (find_program_address : Derivation) (token token_2022 program : List ℕ)
    (invoke_signed : Invoke) where
  -- The order of the accounts, whose stock is the one that the checks have read.
  pub record Read (a : List AccountInfo) (remaining : ℕ) : Type 0 where
    pub order_before : AccountInfo
    pub order_at : index a 1 ≡ ok order_before
    pub left : u64_at order_before.data_bytes Layout.remaining_stock ≡ ok remaining

  pub check_cancel-Read :
      (a : List AccountInfo) (d : List ℕ) (nonce remaining revision : ℕ)
      → check_cancel find_program_address token token_2022 program invoke_signed a d
        ≡ ok (nonce, remaining, revision)
      → Read a remaining
  unfolding check_cancel
  check_cancel-Read a d nonce remaining revision h =
      let form : Bool =
        length d == 16 && get_or d 0 0 == 16 && all_zero_bytes (slice d 1 7) && length a == 6 in
      let (_, _, h1) = >>=-eq-ok (need form bounds) _ h in
      let (owner, _, h2) = >>=-eq-ok (index a 0) _ h1 in
      let (o, e1, h3) = >>=-eq-ok (index a 1) _ h2 in
      let (escrow, _, h4) = >>=-eq-ok (index a 2) _ h3 in
      let (destination, _, h5) = >>=-eq-ok (index a 3) _ h4 in
      let (mint, _, h6) = >>=-eq-ok (index a 4) _ h5 in
      let usable : Bool =
        owner.is_signer
        && owner.is_writable
        && o.is_writable
        && same_bytes o.owner program
        && escrow.is_writable
        && destination.is_writable in
      let (_, _, h7) = >>=-eq-ok (need usable identity) _ h6 in
      let (n, _, h8) = >>=-eq-ok (u64_at d 8) _ h7 in
      let (_, _, h9) =
        >>=-eq-ok
          (need (same_bytes o.key (find_program_address (order_seeds owner n) program).0) identity)
          _ h8 in
      let cancellable : Bool =
        is_order o.data_bytes
        && has_status open_status o.data_bytes
        && names o.data_bytes Layout.owner owner
        && names o.data_bytes Layout.product_mint mint
        && names o.data_bytes Layout.escrow escrow in
      let (_, _, h10) = >>=-eq-ok (need cancellable identity) _ h9 in
      let (stock, e2, h11) = >>=-eq-ok (u64_at o.data_bytes Layout.remaining_stock) _ h10 in
      let (rev, _, h12) = >>=-eq-ok (u64_at o.data_bytes Layout.revision) _ h11 in
      record {
        order_before = o;
        order_at = e1;
        left = e2 ∙ ap ok (second n stock rev nonce remaining revision h12);
      }
    where
      second :
          (n s r n' s' r' : ℕ)
          → ◌≡◌ {A = Program (ℕ × ℕ × ℕ)} (ok (n, s, r)) (ok (n', s', r'))
          → s ≡ s'
      second n s r n' s' r' e = ap (λ (t : ℕ × ℕ × ℕ). t.1) (ok-inj e)

  pub balances-amounts :
      (a : List AccountInfo) (inspect : Bool) (held owned : ℕ)
      → balances find_program_address token token_2022 program invoke_signed a inspect
        ≡ ok (held, owned)
      → Amount a 2 held × Amount a 3 owned
  unfolding balances
  balances-amounts a inspect held owned h =
      let (owner, _, h1) = >>=-eq-ok (index a 0) _ h in
      let (order, _, h2) = >>=-eq-ok (index a 1) _ h1 in
      let (escrow, e2, h3) = >>=-eq-ok (index a 2) _ h2 in
      let (destination, e3, h4) = >>=-eq-ok (index a 3) _ h3 in
      let (mint, _, h5) = >>=-eq-ok (index a 4) _ h4 in
      let (token_program, _, h6) = >>=-eq-ok (index a 5) _ h5 in
      let (s, e4, h7) =
        >>=-eq-ok (checked_asset token token_2022 order escrow mint token_program inspect) _ h6 in
      let (e, e5, h8) =
        >>=-eq-ok (checked_asset token token_2022 owner destination mint token_program false) _
          h7 in
      (
        (
          escrow,
          e2,
          checked_asset-amount token token_2022 order escrow mint token_program inspect s e4
              ∙ ap ok (first_amount s e held owned h8),
        ),
        (
          destination,
          e3,
          checked_asset-amount token token_2022 owner destination mint token_program false e e5
              ∙ ap ok (second_amount s e held owned h8),
        ),
      )

  -- The balances do not depend on the data of the order.
  pub balances-set :
      (c : List AccountInfo) (order : AccountInfo) (state : List ℕ) (inspect : Bool)
      → index c 1 ≡ ok order
      → balances find_program_address token token_2022 program invoke_signed
          (set c 1 (record order { data_bytes = state }))
          inspect
        ≡ balances find_program_address token token_2022 program invoke_signed c inspect
  unfolding balances checked_asset
  balances-set [] order state inspect h = cc
  balances-set (x ∷ []) order state inspect h = cc
  balances-set (x ∷ y ∷ xs) order state inspect h =
      subst
        (λ (o : AccountInfo).
          balances find_program_address token token_2022 program invoke_signed
            (x ∷ record o { data_bytes = state } ∷ xs) inspect
          ≡ balances find_program_address token token_2022 program invoke_signed (x ∷ y ∷ xs)
              inspect)
        (ok-inj h) refl
