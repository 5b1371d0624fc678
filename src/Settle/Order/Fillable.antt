-- ===== src/Settle/Order/Fillable.antt =====
-- engine/stockmesh/programs/stocklana-settle/src/order.rs: that an order passes the checks of a fill.
use xtxc.Common.{ℕ, ◌≡◌, refl, ◌≤◌, arith, true, List, leb}
use xtxc.Settle.{ok, index, same_bytes, AccountInfo}
use xtxc.Settle.Order.{Derivation, Places, order_seeds, check_resting}
use xtxc.Settle.Order.Record.{Ask}
use xtxc.Settle.Order.Placed.{Written}

-- The places of an order's accounts in the list that `place` takes.
abbrev pub placed_at : Places
placed_at = record {
  order = 1;
  owner = 0;
  escrow = 3;
  cash_destination = 4;
  policy = 10;
  cash_mint = 5;
  product_mint = 6;
  product_program = 7;
}

module _ (find_program_address : Derivation) (token token_2022 program : List ℕ) where
  -- An order with its accounts passes the checks of a fill.
  pub fillable :
      (a : List AccountInfo)
      (owner claim cash_mint product_mint escrow destination order : AccountInfo) (t : Ask)
      (slot stock later : ℕ) (state : List ℕ)
      → Written owner claim cash_mint product_mint escrow destination t slot state
      → index a 0 ≡ ok owner
      → index a 10 ≡ ok claim
      → index a 5 ≡ ok cash_mint
      → index a 6 ≡ ok product_mint
      → index a 3 ≡ ok escrow
      → index a 4 ≡ ok destination
      → index a 1 ≡ ok order
      → same_bytes order.key (find_program_address (order_seeds owner t.order_nonce) program).0
        ≡ true
      → stock ≤ t.stock_atoms
      → later ≤ t.expires_slot
      → check_resting find_program_address token token_2022 program a placed_at state 0 stock later
        ≡ ok (t.order_nonce, t.stock_atoms, t.minimum_cash_per_share)
  unfolding check_resting
  fillable a owner claim cash_mint product_mint escrow destination order t slot stock later state w
        e0 e10 e5 e6 e3 e4 e1 address enough early =
      let r = w.resting in
      let in_time : leb later t.expires_slot ≡ true = ground arith in
      let covered : leb stock t.stock_atoms ≡ true = ground arith in
      rw e0 (
        rw e10 (
          rw e5 (
            rw e6 (
              rw e3 (
                rw e4 (
                  rw e1 (
                    rw r.order (
                      rw w.bound (
                        rw r.resting (
                          rw r.number (
                            rw w.expires (
                              rw in_time (
                                rw w.nonce (
                                  rw address
                                    (rw r.stock (rw w.minimum (rw covered refl)))))))))))))))))
