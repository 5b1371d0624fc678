-- ===== src/Settle/Order/Offered.antt =====
-- engine/stockmesh/programs/stocklana-settle/src/order.rs: what `place` escrows, and that a fill finds the order that it leaves.
use xtxc.Common.{
  ℕ, zero, suc, ◌+◌, ◌≡◌, sym, ap, subst, ◌∙◌, ◌≤◌, arith, Bool, true, false, ◌&&◌, List, [], ◌∷◌,
  ◌==◌, length, get_or, set, All,
}
use xtxc.Settle.{
  ok, index, >>=-eq-ok, need-eq-ok, ok-inj, same_bytes, AccountInfo, need, conservation,
}
use xtxc.Settle.Order.{Derivation, Clock, order_seeds, order_len, check_resting}
use xtxc.Settle.Asset.Amounts.{Amount}
use xtxc.Settle.Order.Cancel.{Invoke, moved}
use xtxc.Settle.Order.Record.{Ask, is_placeable, read_ask, write_order, returned, record_order}
use xtxc.Settle.Order.Place.{
  System, transfer_checked, escrowed, check_form, check_terms, check_stock, create, place,
}
use xtxc.Settle.Order.Words.{Bytes}
use xtxc.Settle.Order.Fills.{Resting}
use xtxc.Settle.Order.Closed.{index-set_one, moved-eq}
use xtxc.Settle.Order.Terms.{Passed, check_terms-Passed, check_stock-empty, read_ask-Sized, both}
use xtxc.Settle.Order.Placed.{Sized, write_order-Written}
use xtxc.Settle.Order.Fillable.{placed_at, fillable}
use xtxc.Settle.Order.Escrowed.{escrowed-set, escrowed-amounts}

index-All :
    (P : AccountInfo → Type 0) (a : List AccountInfo) (i : ℕ) (x : AccountInfo)
    → All P a
    → index a i ≡ ok x
    → P x
index-All P [] i x h e = cc
index-All P (y ∷ ys) zero x h e = subst P (ok-inj e) h.0
index-All P (y ∷ ys) (suc i) x h e = index-All P ys i x h.1 e

module _ (find_program_address : Derivation) (token token_2022 program : List ℕ)
    (invoke_signed : Invoke) (system : System) where
  -- What a placement has read, moved and written.
  pub record Offered (a b : List AccountInfo) (d : List ℕ) (order : AccountInfo) : Type 0 where
    pub ask : Ask
    pub asked : read_ask d ≡ ok ask
    pub placeable : is_placeable ask ≡ true
    pub held : ℕ
    pub held_after : ℕ
    pub start :
        escrowed find_program_address token token_2022 program invoke_signed system a true
        ≡ ok (held, 0)
    pub end :
        escrowed find_program_address token token_2022 program invoke_signed system b false
        ≡ ok (held_after, ask.stock_atoms)
    pub owner_held : Amount a 2 held
    pub escrow_held : Amount a 3 0
    pub owner_holds : Amount b 2 held_after
    pub escrow_holds : Amount b 3 ask.stock_atoms
    pub paid_in : held ≡ held_after + ask.stock_atoms
    pub resting : Resting order.data_bytes ask.stock_atoms 0 0
    pub passes :
        (stock later : ℕ)
        → stock ≤ ask.stock_atoms
        → later ≤ ask.expires_slot
        → check_resting find_program_address token token_2022 program a placed_at order.data_bytes 0
            stock later
          ≡ ok (ask.order_nonce, ask.stock_atoms, ask.minimum_cash_per_share)

  written_order :
      (a b c : List AccountInfo) (d receipt : List ℕ) (slot : ℕ) (order : AccountInfo) (t : Ask)
      → Sized t
      → All (λ (x : AccountInfo). Bytes x.key) a
      → Passed find_program_address token token_2022 program invoke_signed system a t
      → record_order a c t slot ≡ ok (b, receipt)
      → index b 1 ≡ ok order
      → length order.data_bytes ≡ order_len
      → Resting order.data_bytes t.stock_atoms 0 0
        × ((stock later : ℕ)
            → stock ≤ t.stock_atoms
            → later ≤ t.expires_slot
            → check_resting find_program_address token token_2022 program a placed_at
                order.data_bytes 0 stock later
              ≡ ok (t.order_nonce, t.stock_atoms, t.minimum_cash_per_share))
        × (escrowed find_program_address token token_2022 program invoke_signed system b false
            ≡ escrowed find_program_address token token_2022 program invoke_signed system c false)
  unfolding record_order
  written_order a b c d receipt slot order t sized keys passed h at long =
      let (owner, i0, h1) = >>=-eq-ok (index a 0) _ h in
      let (escrow, i3, h2) = >>=-eq-ok (index a 3) _ h1 in
      let (destination, i4, h3) = >>=-eq-ok (index a 4) _ h2 in
      let (cash_mint, i5, h4) = >>=-eq-ok (index a 5) _ h3 in
      let (product_mint, i6, h5) = >>=-eq-ok (index a 6) _ h4 in
      let (claim, i10, h6) = >>=-eq-ok (index a 10) _ h5 in
      let (old, i1, h7) = >>=-eq-ok (index c 1) _ h6 in
      let (state, run, h8) =
        >>=-eq-ok
          (write_order owner.key claim.key cash_mint.key product_mint.key escrow.key destination.key
            t slot old.data_bytes)
          _ h7 in
      let (receipt', _, h9) = >>=-eq-ok (returned state) _ h8 in
      let final : AccountInfo = record old { data_bytes = state } in
      let left : set c 1 final ≡ b = ap (λ (p : List AccountInfo × List ℕ). p.0) (ok-inj h9) in
      let there = subst (λ xs. index xs 1 ≡ ok final) left (index-set_one c old final i1) in
      let same : final ≡ order = ok-inj (sym there ∙ at) in
      let content : state ≡ order.data_bytes = ap (λ (x : AccountInfo). x.data_bytes) same in
      let key : (i : ℕ) (x : AccountInfo) → index a i ≡ ok x → Bytes x.key =
        λ i x e. index-All (λ (y : AccountInfo). Bytes y.key) a i x keys e in
      let w =
        write_order-Written owner claim cash_mint product_mint escrow destination t slot
          old.data_bytes state run (ap length content ∙ long) sized (key 0 owner i0)
          (key 10 claim i10) (key 5 cash_mint i5) (key 6 product_mint i6) (key 3 escrow i3)
          (key 4 destination i4) in
      let address =
        subst
          (λ (x : AccountInfo).
            same_bytes passed.order.key
              (find_program_address (order_seeds x t.order_nonce) program).0
            ≡ true)
          (ok-inj (sym passed.owner_at ∙ i0)) passed.address in
      (
        subst (λ x. Resting x t.stock_atoms 0 0) content w.resting,
        λ stock later enough early.
            subst
              (λ x.
                check_resting find_program_address token token_2022 program a placed_at x 0 stock
                  later
                ≡ ok (t.order_nonce, t.stock_atoms, t.minimum_cash_per_share))
              content
              (fillable find_program_address token token_2022 program a owner claim cash_mint
                product_mint escrow destination passed.order t slot stock later state w i0 i10 i5 i6
                i3 i4 passed.order_at address enough early),
        ap
              (λ x.
                escrowed find_program_address token token_2022 program invoke_signed system x false)
              (sym left)
            ∙ escrowed-set find_program_address token token_2022 program invoke_signed system c old
                state false i1,
      )

  offered :
      (a b c : List AccountInfo) (d receipt : List ℕ) (slot : ℕ) (order : AccountInfo) (t : Ask)
      (s s' e e' : ℕ)
      → Bytes d
      → All (λ (x : AccountInfo). Bytes x.key) a
      → read_ask d ≡ ok t
      → Passed find_program_address token token_2022 program invoke_signed system a t
      → escrowed find_program_address token token_2022 program invoke_signed system a true
        ≡ ok (s, e)
      → e ≡ 0
      → escrowed find_program_address token token_2022 program invoke_signed system c false
        ≡ ok (s', e')
      → (moved s s' t.stock_atoms && moved e' e t.stock_atoms) ≡ true
      → record_order a c t slot ≡ ok (b, receipt)
      → index b 1 ≡ ok order
      → length order.data_bytes ≡ order_len
      → Offered a b d order
  offered a b c d receipt slot order t s s' e e' bytes keys asked passed start none end flow h at
        long =
      let (left, resting) = both (moved s s' t.stock_atoms) (moved e' e t.stock_atoms) flow in
      let arrived : e' ≡ t.stock_atoms =
        let k = moved-eq e' e t.stock_atoms resting in omega arith in
      let w =
        written_order a b c d receipt slot order t (read_ask-Sized d t bytes asked) keys passed h at
          long in
      let first : escrowed find_program_address token token_2022 program invoke_signed system a true
          ≡ ok (s, 0) =
        subst
          (λ n.
            escrowed find_program_address token token_2022 program invoke_signed system a true
            ≡ ok (s, n))
          none start in
      let last : escrowed find_program_address token token_2022 program invoke_signed system b false
          ≡ ok (s', t.stock_atoms) =
        w.2
        ∙ subst
            (λ n.
              escrowed find_program_address token token_2022 program invoke_signed system c false
              ≡ ok (s', n))
            arrived end in
      let was =
        escrowed-amounts find_program_address token token_2022 program invoke_signed system a true s
          0 first in
      let now =
        escrowed-amounts find_program_address token token_2022 program invoke_signed system b false
          s' t.stock_atoms last in
      record {
        ask = t;
        asked = asked;
        placeable = passed.placeable;
        held = s;
        held_after = s';
        start = first;
        end = last;
        owner_held = was.0;
        escrow_held = was.1;
        owner_holds = now.0;
        escrow_holds = now.1;
        paid_in = moved-eq s s' t.stock_atoms left;
        resting = w.0;
        passes = w.1;
      }

  -- A successful `place`, whose accounts have keys of bytes and whose order has been allocated its 336
  -- bytes, has moved exactly the stock of the ask from the owner's account to an escrow that was empty
  -- before: in the accounts that it leaves the escrow holds that stock, and the owner's account that much
  -- less than in those it was given. The order that it leaves is open, with all of that stock, at revision
  -- 0 and unpaid, and with the accounts of the instruction it passes the checks of a fill of any part of
  -- the stock up to the slot at which the ask expires, which read the nonce, the stock and the price of
  -- the ask.
  pub place-Offered :
      (a b : List AccountInfo) (d receipt : List ℕ) (clock : Clock) (order : AccountInfo)
      → Bytes d
      → All (λ (x : AccountInfo). Bytes x.key) a
      → place find_program_address token token_2022 program invoke_signed system a d clock
        ≡ ok (b, receipt)
      → index b 1 ≡ ok order
      → length order.data_bytes ≡ order_len
      → Offered a b d order
  unfolding place
  place-Offered a b d receipt clock order bytes keys h at long =
      let (_, _, h0) =
        >>=-eq-ok
          (check_form find_program_address token token_2022 program invoke_signed system a d) _ h in
      let (t, e1, h1) = >>=-eq-ok (read_ask d) _ h0 in
      let closed : Bool = get_or d 1 0 == 1 in
      let (u, e2, h2) =
        >>=-eq-ok
          (check_terms find_program_address token token_2022 program invoke_signed system a closed t
            clock)
          _ h1 in
      let ((s, e), e3, h3) =
        >>=-eq-ok
          (check_stock find_program_address token token_2022 program invoke_signed system a t clock)
          _ h2 in
      let (b1, _, h4) =
        >>=-eq-ok
          (create find_program_address token token_2022 program invoke_signed system a
            t.order_nonce)
          _ h3 in
      let (c, _, h5) =
        >>=-eq-ok
          (transfer_checked find_program_address token token_2022 program invoke_signed system b1 2
            6 3 0 7 t.stock_atoms)
          _ h4 in
      let ((s', e'), e6, h6) =
        >>=-eq-ok
          (escrowed find_program_address token token_2022 program invoke_signed system c false) _
          h5 in
      let out : Bool = moved s s' t.stock_atoms in
      let into : Bool = moved e' e t.stock_atoms in
      let (_, n, h7) = >>=-eq-ok (need (out && into) conservation) _ h6 in
      let checked =
        check_stock-empty find_program_address token token_2022 program invoke_signed system a t
          clock s e e3 in
      offered a b c d receipt clock.slot order t s s' e e' bytes keys e1
        (check_terms-Passed find_program_address token token_2022 program invoke_signed system a
          closed t clock u e2)
        checked.0 checked.1 e6 (need-eq-ok (out && into) conservation n) h7 at long
