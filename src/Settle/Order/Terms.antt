-- ===== src/Settle/Order/Terms.antt =====
-- engine/stockmesh/programs/stocklana-settle/src/order.rs: what the checks of `place` establish.
use xtxc.Common.{
  ℕ, zero, suc, ◌+◌, ◌≡◌, sym, ap, subst, ◌∙◌, ◌<◌, inl, inr, arith, Bool, true, ◌&&◌, List, [],
  ◌∷◌, ltb, leb, ◌==◌, length, get_or, Bool-cases,
}
use xtxc.Common.Int.{pos}
use xtxc.Settle.{
  Program, ok, index, >>=-eq-ok, need-eq-ok, ok-inj, same_bytes, AccountInfo, need, identity,
  bounds, expired, checked_add,
}
use xtxc.Settle.Bytes.{slice, u64_at}
use xtxc.Settle.Exposure.{leb_ℤ, convert}
use xtxc.Settle.Asset.{checked_asset}
use xtxc.Settle.Policy.{key_at}
use xtxc.Settle.Order.{Derivation, Clock, order_seeds, ceil_q32}
use xtxc.Settle.Order.Cancel.{Invoke}
use xtxc.Settle.Order.Record.{Ask, is_placeable, read_ask}
use xtxc.Settle.Order.Place.{System, escrowed, check_terms, check_stock}
use xtxc.Settle.Order.Words.{Bytes, u64_at-lt, slice-Bytes}
use xtxc.Settle.Order.Placed.{Sized}

first : (p q r : Bool) → (p && q && r) ≡ true → p ≡ true
first p q r k = ground arith

same_pair :
    (r : Program (ℕ × ℕ)) (s e held locked : ℕ)
    → r ≡ ok (s, e)
    → (e == 0) ≡ true
    → ◌≡◌ {A = Program (ℕ × ℕ)} (ok (s, e)) (ok (held, locked))
    → (r ≡ ok (held, locked)) × (locked ≡ 0)
same_pair r s e held locked h none k =
    let zero_e : e ≡ 0 = ground arith in
    let pair = ok-inj k in (h ∙ k, sym (ap (λ (p : ℕ × ℕ). p.1) pair) ∙ zero_e)

pub both : (p q : Bool) → (p && q) ≡ true → (p ≡ true) × (q ≡ true)
both p q k = ground arith

get_or-Bytes : (d : List ℕ) (i : ℕ) → Bytes d → get_or d i 0 < 256
get_or-Bytes [] i b = omega arith
get_or-Bytes (x ∷ d) zero b = b.0
get_or-Bytes (x ∷ d) (suc i) b = get_or-Bytes d i b.1

key_at-Bytes : (d key : List ℕ) (o : ℕ) → Bytes d → key_at d o ≡ ok key → Bytes key
unfolding key_at
key_at-Bytes d key o b h = elim (Bool-cases (ltb (length d) (o + 32))) [
  | inl e ↦ absurd (ground arith)
  | inr e ↦
      let shape : slice d o 32 ≡ key = ground arith in subst Bytes shape (slice-Bytes d o 32 b)
]

pub read_ask-Sized : (d : List ℕ) (t : Ask) → Bytes d → read_ask d ≡ ok t → Sized t
unfolding read_ask
read_ask-Sized d t b h =
    let (nonce, e0, h0) = >>=-eq-ok (u64_at d 8) _ h in
    let (stock, e1, h1) = >>=-eq-ok (u64_at d 16) _ h0 in
    let (minimum, e2, h2) = >>=-eq-ok (u64_at d 24) _ h1 in
    let (expires, e3, h3) = >>=-eq-ok (u64_at d 32) _ h2 in
    let (version, _, h4) = >>=-eq-ok (u64_at d 40) _ h3 in
    let (age, _, h5) = >>=-eq-ok (u64_at d 48) _ h4 in
    let (numerator, _, h6) = >>=-eq-ok (u64_at d 56) _ h5 in
    let (denominator, _, h7) = >>=-eq-ok (u64_at d 64) _ h6 in
    let (instrument, e8, h8) = >>=-eq-ok (key_at d 72) _ h7 in
    subst Sized (ok-inj h8) (record {
      nonce = u64_at-lt d 8 nonce b e0;
      stock = u64_at-lt d 16 stock b e1;
      minimum = u64_at-lt d 24 minimum b e2;
      expires = u64_at-lt d 32 expires b e3;
      model = get_or-Bytes d 2 b;
      instrument = key_at-Bytes d instrument 72 b e8;
    })

module _ (find_program_address : Derivation) (token token_2022 program : List ℕ)
    (invoke_signed : Invoke) (system : System) where
  -- What the checks of the terms establish.
  pub record Passed (a : List AccountInfo) (t : Ask) : Type 0 where
    pub owner : AccountInfo
    pub order : AccountInfo
    pub owner_at : index a 0 ≡ ok owner
    pub order_at : index a 1 ≡ ok order
    pub placeable : is_placeable t ≡ true
    pub address :
        same_bytes order.key (find_program_address (order_seeds owner t.order_nonce) program).0
        ≡ true

  pub check_terms-Passed :
      (a : List AccountInfo) (closed : Bool) (t : Ask) (clock : Clock) (u : Unit {0})
      → check_terms find_program_address token token_2022 program invoke_signed system a closed t
          clock
        ≡ ok u
      → Passed a t
  unfolding check_terms
  check_terms-Passed a closed t clock u h =
      let (_, n0, h0) = >>=-eq-ok (need (is_placeable t) bounds) _ h in
      let timely : Bool = leb_ℤ (pos 0) clock.unix_timestamp && ltb clock.slot t.expires_slot in
      let (_, _, h1) = >>=-eq-ok (need timely expired) _ h0 in
      let (latest, _, h2) = >>=-eq-ok (checked_add clock.slot 1_000_000 bounds) _ h1 in
      let (_, _, h3) = >>=-eq-ok (need (leb t.expires_slot latest) expired) _ h2 in
      let (owner, e0, h4) = >>=-eq-ok (index a 0) _ h3 in
      let (order, e1, h5) = >>=-eq-ok (index a 1) _ h4 in
      let derived : Bool =
        same_bytes order.key (find_program_address (order_seeds owner t.order_nonce) program).0 in
      let empty : Bool = length order.data_bytes == 0 in
      let unowned : Bool = same_bytes order.owner system.id in
      let (_, n1, _) = >>=-eq-ok (need (derived && empty && unowned) identity) _ h5 in
      record {
        owner = owner;
        order = order;
        owner_at = e0;
        order_at = e1;
        placeable = need-eq-ok (is_placeable t) bounds n0;
        address = first derived empty unowned (need-eq-ok _ identity n1);
      }

  pub check_stock-empty :
      (a : List AccountInfo) (t : Ask) (clock : Clock) (held locked : ℕ)
      → check_stock find_program_address token token_2022 program invoke_signed system a t clock
        ≡ ok (held, locked)
      → (escrowed find_program_address token token_2022 program invoke_signed system a true
          ≡ ok (held, locked))
        × (locked ≡ 0)
  unfolding check_stock
  check_stock-empty a t clock held locked h =
      let (owner, _, h0) = >>=-eq-ok (index a 0) _ h in
      let (destination, _, h1) = >>=-eq-ok (index a 4) _ h0 in
      let (cash_mint, _, h2) = >>=-eq-ok (index a 5) _ h1 in
      let (product_mint, _, h3) = >>=-eq-ok (index a 6) _ h2 in
      let (cash_program, _, h4) = >>=-eq-ok (index a 8) _ h3 in
      let ((s, e), e5, h5) =
        >>=-eq-ok
          (escrowed find_program_address token token_2022 program invoke_signed system a true) _
          h4 in
      let (_, _, h6) =
        >>=-eq-ok (checked_asset token token_2022 owner destination cash_mint cash_program true) _
          h5 in
      let enough : Bool = leb t.stock_atoms s in
      let (_, n, h7) = >>=-eq-ok (need (enough && e == 0) bounds) _ h6 in
      let (exposure, _, h8) =
        >>=-eq-ok
          (convert token_2022 product_mint t.product.model t.product.conservative_bps
            t.product.numerator t.product.denominator t.stock_atoms clock.unix_timestamp)
          _ h7 in
      let (_, _, h9) = >>=-eq-ok (need (ltb 0 exposure) bounds) _ h8 in
      let (price, _, h10) = >>=-eq-ok (ceil_q32 exposure t.minimum_cash_per_share) _ h9 in
      let (_, _, h11) = >>=-eq-ok (need (ltb 0 price) bounds) _ h10 in
      same_pair (escrowed find_program_address token token_2022 program invoke_signed system a true)
        s e held locked e5 (both enough (e == 0) (need-eq-ok (enough && e == 0) bounds n)).1 h11
