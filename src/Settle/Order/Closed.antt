-- ===== src/Settle/Order/Closed.antt =====
-- engine/stockmesh/programs/stocklana-settle/src/order.rs: what a cancellation returns, and that it is the end of an order.
use xtxc.Common.{
  ℕ, ◌+◌, ◌≡◌, ◌≢◌, refl, sym, ap, subst, ◌∙◌, arith, Bool, true, false, ◌&&◌, List, [], ◌∷◌, ltb,
  leb, ◌==◌, if◌then◌else◌, length, set, get_or, get_or-set_at, replicate, Bool-cases, inl, inr,
}
use xtxc.Settle.{
  ok, err, AccountInfo, identity, replay, conservation, bounds, need, index, same_bytes,
  checked_add, >>=-eq-ok, need-eq-ok, ok-inj,
}
use xtxc.Settle.Bytes.{u64_at, copy_from_slice, to_le_bytes, slice}
use xtxc.Settle.Exposure.{all_zero_bytes}
use xtxc.Settle.Asset.Amounts.{Amount}
use xtxc.Settle.Layout
use xtxc.Settle.Order.{
  Derivation, record_fill, is_order, has_status, names, open_status, cancelled_status, order_seeds,
}
use xtxc.Settle.Order.Cancel.{
  Invoke, cancel, check_cancel, balances, close_order, transfer_checked_signed, moved, set_byte,
}
use xtxc.Settle.Order.Balances.{check_cancel-Read, balances-amounts, balances-set}

close_order-cancelled :
    (d d' : List ℕ) (revision : ℕ)
    → close_order d revision ≡ ok d'
    → has_status open_status d' ≡ false
unfolding close_order
close_order-cancelled d d' revision h =
    let (d1, _, h1) = >>=-eq-ok (copy_from_slice d Layout.remaining_stock (replicate 8 0)) _ h in
    let (next, _, h2) = >>=-eq-ok (checked_add revision 1 bounds) _ h1 in
    let (d2, _, h3) = >>=-eq-ok (copy_from_slice d1 Layout.revision (to_le_bytes 8 next)) _ h2 in
    closed d2 h3
  where
    closed :
        (d2 : List ℕ)
        → set_byte d2 Layout.status cancelled_status ≡ ok d'
        → has_status open_status d' ≡ false
    closed d2 e = elim (Bool-cases (ltb Layout.status (length d2))) [
      | inl fits ↦
          let shape : set d2 Layout.status cancelled_status ≡ d' = ground arith in
          let g = get_or-set_at d2 Layout.status cancelled_status Layout.status 0 (ground arith) in
          subst (λ t. has_status open_status t ≡ false) shape (rw g)
      | inr short ↦ absurd (ground arith)
    ]

pub index-set_one :
    (xs : List AccountInfo) (old new : AccountInfo)
    → index xs 1 ≡ ok old
    → index (set xs 1 new) 1 ≡ ok new
index-set_one [] old new h = cc
index-set_one (x ∷ []) old new h = cc
index-set_one (x ∷ y ∷ xs) old new h = refl

and_false : (b c : Bool) → c ≡ false → (b && c) ≡ false
and_false b c h = ground arith

refused_fill :
    (d : List ℕ)
    → has_status open_status d ≡ false
    → (expected_revision stock cash : ℕ) → record_fill d expected_revision stock cash ≡ err replay
unfolding record_fill
refused_fill d h expected stock cash =
    let shut = and_false (is_order d) (has_status open_status d) h in rw shut

pub moved-eq :
    (before after amount : ℕ) → moved before after amount ≡ true → before ≡ after + amount
moved-eq before after amount h = ground arith

module _ (find_program_address : Derivation) (token token_2022 program : List ℕ)
    (invoke_signed : Invoke) where
  -- What a cancellation of the accounts `a` has read, and moved in the accounts `b` that it leaves.
  pub record Returned (a b : List AccountInfo) (d : List ℕ) : Type 0 where
    pub nonce : ℕ
    pub remaining : ℕ
    pub revision : ℕ
    pub checked :
        check_cancel find_program_address token token_2022 program invoke_signed a d
        ≡ ok (nonce, remaining, revision)
    pub order_before : AccountInfo
    pub order_at : index a 1 ≡ ok order_before
    pub left : u64_at order_before.data_bytes Layout.remaining_stock ≡ ok remaining
    pub held : ℕ
    pub owned : ℕ
    pub held_after : ℕ
    pub owned_after : ℕ
    pub start :
        balances find_program_address token token_2022 program invoke_signed a true
        ≡ ok (held, owned)
    pub end :
        balances find_program_address token token_2022 program invoke_signed b false
        ≡ ok (held_after, owned_after)
    pub escrow_held : Amount a 2 held
    pub owner_held : Amount a 3 owned
    pub escrow_holds : Amount b 2 held_after
    pub owner_holds : Amount b 3 owned_after
    pub released : held ≡ held_after + remaining
    pub credited : owned_after ≡ owned + remaining

  -- The order of the accounts that are left is over: no fill of it is recorded, and no list of accounts
  -- with it as its order passes the checks of a cancellation.
  pub record Over (b : List AccountInfo) : Type 0 where
    pub order : AccountInfo
    pub at : index b 1 ≡ ok order
    pub unfillable :
        (expected_revision stock cash : ℕ)
        → record_fill order.data_bytes expected_revision stock cash ≡ err replay
    pub final :
        (c : List AccountInfo) (d : List ℕ) (t : ℕ × ℕ × ℕ)
        → index c 1 ≡ ok order
        → check_cancel find_program_address token token_2022 program invoke_signed c d ≢ ok t

  refused_cancel :
      (order : AccountInfo) (c : List AccountInfo) (d : List ℕ) (t : ℕ × ℕ × ℕ)
      → has_status open_status order.data_bytes ≡ false
      → index c 1 ≡ ok order
      → check_cancel find_program_address token token_2022 program invoke_signed c d ≢ ok t
  unfolding check_cancel
  refused_cancel order c d t shut e h =
      let form : Bool =
        length d == 16 && get_or d 0 0 == 16 && all_zero_bytes (slice d 1 7) && length c == 6 in
      let (_, _, h1) = >>=-eq-ok (need form bounds) _ h in
      let (owner, _, h2) = >>=-eq-ok (index c 0) _ h1 in
      let (o, e2, h3) = >>=-eq-ok (index c 1) _ h2 in
      let (escrow, _, h4) = >>=-eq-ok (index c 2) _ h3 in
      let (destination, _, h5) = >>=-eq-ok (index c 3) _ h4 in
      let (mint, _, h6) = >>=-eq-ok (index c 4) _ h5 in
      let usable : Bool =
        owner.is_signer
        && owner.is_writable
        && o.is_writable
        && same_bytes o.owner program
        && escrow.is_writable
        && destination.is_writable in
      let (_, _, h7) = >>=-eq-ok (need usable identity) _ h6 in
      let (nonce, _, h8) = >>=-eq-ok (u64_at d 8) _ h7 in
      let (_, _, h9) =
        >>=-eq-ok
          (need (same_bytes o.key (find_program_address (order_seeds owner nonce) program).0)
            identity)
          _ h8 in
      let cancellable : Bool =
        is_order o.data_bytes
        && has_status open_status o.data_bytes
        && names o.data_bytes Layout.owner owner
        && names o.data_bytes Layout.product_mint mint
        && names o.data_bytes Layout.escrow escrow in
      let (_, n, _) = >>=-eq-ok (need cancellable identity) _ h9 in
      let same : o ≡ order = ok-inj (sym e2 ∙ e) in
      let shut' : has_status open_status o.data_bytes ≡ false =
        subst (λ (x : AccountInfo). has_status open_status x.data_bytes ≡ false) (sym same) shut in
      five_false (is_order o.data_bytes) (has_status open_status o.data_bytes) _ _ _ shut'
        (need-eq-ok cancellable identity n)
    where
      five_false : (p q r s t : Bool) → q ≡ false → (p && q && r && s && t) ≢ true
      five_false p q r s t k e = ground arith

  -- A successful `cancel` has moved exactly the stock that its order had left from the escrow to the
  -- owner's account: by the accounts that it leaves, against those it was given, the escrow has that much
  -- less and the owner's account that much more, whatever the call of the token program does. The order
  -- that it leaves behind is closed for good: every later fill is refused as a replay, and no second
  -- cancellation passes the checks.
  pub cancel_final :
      (a b : List AccountInfo) (d receipt : List ℕ)
      → cancel find_program_address token token_2022 program invoke_signed a d ≡ ok (b, receipt)
      → Returned a b d × Over b
  unfolding cancel
  cancel_final a b d receipt h =
      let ((nonce, remaining, revision), e1, h1) =
        >>=-eq-ok (check_cancel find_program_address token token_2022 program invoke_signed a d) _
          h in
      let ((before, owned), e2, h2) =
        >>=-eq-ok (balances find_program_address token token_2022 program invoke_signed a true) _
          h1 in
      let (_, _, h3) = >>=-eq-ok (need (leb remaining before) conservation) _ h2 in
      let (c, e3, h4) =
        >>=-eq-ok
          (if ltb 0 remaining
            then transfer_checked_signed find_program_address token token_2022 program invoke_signed
                a 2 4 3 1 5 0 nonce remaining
            else ok a)
          _ h3 in
      let ((after, owned_after), e4, h5) =
        >>=-eq-ok (balances find_program_address token token_2022 program invoke_signed c false) _
          h4 in
      let (_, n, h6) =
        >>=-eq-ok
          (need (moved before after remaining && moved owned_after owned remaining) conservation) _
          h5 in
      let (order, e5, h7) = >>=-eq-ok (index c 1) _ h6 in
      let (state, e6, h8) = >>=-eq-ok (close_order order.data_bytes revision) _ h7 in
      let read =
        check_cancel-Read find_program_address token token_2022 program invoke_signed a d nonce
          remaining revision e1 in
      let (out, back) =
        both (moved before after remaining) (moved owned_after owned remaining)
          (need-eq-ok _ conservation n) in
      let shut = close_order-cancelled order.data_bytes state revision e6 in
      let final_order : AccountInfo = record order { data_bytes = state } in
      let left : set c 1 final_order ≡ b =
        ap (λ (p : List AccountInfo × List ℕ). p.0) (ok-inj h8) in
      let last =
        subst
          (λ x.
            balances find_program_address token token_2022 program invoke_signed x false
            ≡ ok (after, owned_after))
          left
          (balances-set find_program_address token token_2022 program invoke_signed c order state
              false e5
            ∙ e4) in
      let was =
        balances-amounts find_program_address token token_2022 program invoke_signed a true before
          owned e2 in
      let now =
        balances-amounts find_program_address token token_2022 program invoke_signed b false after
          owned_after last in
      (
        record {
          nonce = nonce;
          remaining = remaining;
          revision = revision;
          checked = e1;
          order_before = read.order_before;
          order_at = read.order_at;
          left = read.left;
          held = before;
          owned = owned;
          held_after = after;
          owned_after = owned_after;
          start = e2;
          end = last;
          escrow_held = was.0;
          owner_held = was.1;
          escrow_holds = now.0;
          owner_holds = now.1;
          released = moved-eq before after remaining out;
          credited = moved-eq owned_after owned remaining back;
        },
        record {
          order = final_order;
          at =
              subst (λ xs. index xs 1 ≡ ok final_order) left (index-set_one c order final_order e5);
          unfillable = refused_fill state shut;
          final = λ c2 d2 t e. refused_cancel final_order c2 d2 t shut e;
        },
      )
    where
      both : (p q : Bool) → (p && q) ≡ true → (p ≡ true) × (q ≡ true)
      both p q k = ground arith
