-- ===== src/Settle/Order/Validated.antt =====
-- engine/stockmesh/programs/stocklana-settle/src/order.rs: what `validate_fill` has checked of an accepted fill.
use xtxc.Common.{
  ℕ, ◌+◌, ◌-◌, ◌*◌, ◌/◌, ◌^◌, ◌≡◌, ap, subst, ◌∙◌, ◌≤◌, ◌<◌, arith, Bool, true, false, not, ◌&&◌,
  List, ltb, leb, ◌==◌, length, Bool-cases, inl, inr, ==_iff, leb→le,
}
use xtxc.Settle.{
  ok, AccountInfo, identity, replay, expired, conservation, bounds, min_out, need, index,
  same_bytes, >>=-eq-ok, need-eq-ok, ok-inj,
}
use xtxc.Settle.Bytes.{u64_at}
use xtxc.Settle.Exposure.{convert}
use xtxc.Settle.Asset.{checked_asset}
use xtxc.Settle.Asset.Amounts.{checked_asset-amount}
use xtxc.Settle.Layout
use xtxc.Settle.Order.{
  Derivation, Places, Conversion, Clock, check_resting, validate_fill, ceil_q32, in_range, is_order,
  has_status, binds, open_status, order_seeds,
}

ceil_q32-le : (value price x : ℕ) → ceil_q32 value price ≡ ok x → value * price ≤ x * 2 ^ 32
unfolding ceil_q32
ceil_q32-le value price x h =
    elim (Bool-cases (ltb ((value * price + (2 ^ 32 - 1)) / 2 ^ 32) (2 ^ 64))) [
      | inl e ↦ let x_eq : (value * price + (2 ^ 32 - 1)) / 2 ^ 32 ≡ x = ground arith in omega arith
      | inr e ↦ absurd (ground arith)
    ]

first_of : (b c : Bool) → (b && c) ≡ true → b ≡ true
first_of b c h = ground arith

last_of : (b c : Bool) → (b && c) ≡ true → c ≡ true
last_of b c h = ground arith

both_of :
    (exposure price cash : ℕ)
    → (ltb 0 exposure && leb price cash) ≡ true
    → (0 < exposure) × (price ≤ cash)
both_of exposure price cash h = ground arith

scaled_le : (worth price cash : ℕ) → worth ≤ price * 2 ^ 32 → price ≤ cash → worth ≤ cash * 2 ^ 32
scaled_le worth price cash h k = omega arith

module _ (find_program_address : Derivation) (token token_2022 program : List ℕ)
    (a : List AccountInfo) (at : Places) where
  -- The order that a fill is taken from.
  pub record Matches (state : List ℕ)
      (expected_revision stock_atoms slot nonce remaining minimum : ℕ) : Type 0 where
    pub order : is_order state ≡ true
    pub resting : has_status open_status state ≡ true
    pub number : u64_at state Layout.revision ≡ ok expected_revision
    pub nonced : u64_at state Layout.order_nonce ≡ ok nonce
    pub stock : u64_at state Layout.remaining_stock ≡ ok remaining
    pub limit : u64_at state Layout.min_cash_per_share ≡ ok minimum
    pub enough : stock_atoms ≤ remaining
    pub last_slot : ℕ
    pub expires : u64_at state Layout.expires_slot ≡ ok last_slot
    pub timely : slot ≤ last_slot
    pub owner : AccountInfo
    pub policy : AccountInfo
    pub cash_mint : AccountInfo
    pub product_mint : AccountInfo
    pub escrow : AccountInfo
    pub cash_destination : AccountInfo
    pub owner_at : index a at.owner ≡ ok owner
    pub policy_at : index a at.policy ≡ ok policy
    pub cash_mint_at : index a at.cash_mint ≡ ok cash_mint
    pub product_mint_at : index a at.product_mint ≡ ok product_mint
    pub escrow_at : index a at.escrow ≡ ok escrow
    pub cash_destination_at : index a at.cash_destination ≡ ok cash_destination
    pub bound : binds state owner policy cash_mint product_mint escrow cash_destination ≡ true

  check_resting-Matches :
      (state : List ℕ) (expected stock slot nonce remaining minimum : ℕ)
      → check_resting find_program_address token token_2022 program a at state expected stock slot
        ≡ ok (nonce, remaining, minimum)
      → Matches state expected stock slot nonce remaining minimum
  unfolding check_resting
  check_resting-Matches state expected stock slot nonce remaining minimum h =
      let (owner, i1, h1) = >>=-eq-ok (index a at.owner) _ h in
      let (policy, i2, h2) = >>=-eq-ok (index a at.policy) _ h1 in
      let (cash_mint, i3, h3) = >>=-eq-ok (index a at.cash_mint) _ h2 in
      let (product_mint, i4, h4) = >>=-eq-ok (index a at.product_mint) _ h3 in
      let (escrow, i5, h5) = >>=-eq-ok (index a at.escrow) _ h4 in
      let (cash_destination, i6, h6) = >>=-eq-ok (index a at.cash_destination) _ h5 in
      let (order, _, h7) = >>=-eq-ok (index a at.order) _ h6 in
      let named : Bool = binds state owner policy cash_mint product_mint escrow cash_destination in
      let (_, n1, h8) = >>=-eq-ok (need (is_order state && named) identity) _ h7 in
      let (_, n2, h9) = >>=-eq-ok (need (has_status open_status state) replay) _ h8 in
      let (rev, e1, h10) = >>=-eq-ok (u64_at state Layout.revision) _ h9 in
      let (_, n3, h11) = >>=-eq-ok (need (rev == expected) replay) _ h10 in
      let (last, e2, h12) = >>=-eq-ok (u64_at state Layout.expires_slot) _ h11 in
      let (_, n4, h13) = >>=-eq-ok (need (leb slot last) expired) _ h12 in
      let (number, e3, h14) = >>=-eq-ok (u64_at state Layout.order_nonce) _ h13 in
      let (_, _, h15) =
        >>=-eq-ok
          (need (same_bytes order.key (find_program_address (order_seeds owner number) program).0)
            identity)
          _ h14 in
      let (left, e4, h16) = >>=-eq-ok (u64_at state Layout.remaining_stock) _ h15 in
      let (price, e5, h17) = >>=-eq-ok (u64_at state Layout.min_cash_per_share) _ h16 in
      let (_, n5, h18) = >>=-eq-ok (need (leb stock left) bounds) _ h17 in
      let triple = ok-inj h18 in
      let left_eq : left ≡ remaining = ap (λ (t : ℕ × ℕ × ℕ). t.1) triple in
      record {
        order = first_of (is_order state) named (need-eq-ok (is_order state && named) identity n1);
        resting = need-eq-ok (has_status open_status state) replay n2;
        number = e1 ∙ ap ok ((==_iff rev expected).0 (need-eq-ok (rev == expected) replay n3));
        nonced = e3 ∙ ap ok (ap (λ (t : ℕ × ℕ × ℕ). t.0) triple);
        stock = e4 ∙ ap ok left_eq;
        limit = e5 ∙ ap ok (ap (λ (t : ℕ × ℕ × ℕ). t.2) triple);
        enough =
            subst (λ n. stock ≤ n) left_eq
              (leb→le stock left (need-eq-ok (leb stock left) bounds n5));
        last_slot = last;
        expires = e2;
        timely = leb→le slot last (need-eq-ok (leb slot last) expired n4);
        owner = owner;
        policy = policy;
        cash_mint = cash_mint;
        product_mint = product_mint;
        escrow = escrow;
        cash_destination = cash_destination;
        owner_at = i1;
        policy_at = i2;
        cash_mint_at = i3;
        product_mint_at = i4;
        escrow_at = i5;
        cash_destination_at = i6;
        bound = last_of (is_order state) named (need-eq-ok (is_order state && named) identity n1);
      }

  -- A fill that may go ahead.
  pub record Valid (expected_revision stock_atoms cash_atoms : ℕ) (product : Conversion)
      (clock : Clock) (nonce : ℕ) : Type 0 where
    pub order : AccountInfo
    pub escrow : AccountInfo
    pub product_mint : AccountInfo
    pub product_program : AccountInfo
    pub ordered : index a at.order ≡ ok order
    pub escrow_at : index a at.escrow ≡ ok escrow
    pub product_mint_at : index a at.product_mint ≡ ok product_mint
    pub product_program_at : index a at.product_program ≡ ok product_program
    pub remaining : ℕ
    pub minimum : ℕ
    pub matches :
        Matches order.data_bytes expected_revision stock_atoms clock.slot nonce remaining minimum
    pub balance : ℕ
    pub holds :
        checked_asset token token_2022 order escrow product_mint product_program false ≡ ok balance
    pub amount : u64_at escrow.data_bytes 64 ≡ ok balance
    pub covered : remaining ≤ balance
    pub exposure : ℕ
    pub converts :
        convert token_2022 product_mint product.model product.conservative_bps product.numerator
          product.denominator stock_atoms clock.unix_timestamp
        ≡ ok exposure
    pub worth : 0 < exposure
    pub pays : exposure * minimum ≤ cash_atoms * 2 ^ 32

  -- A fill that `validate_fill` accepts is of the order in its place, which is open at the expected
  -- revision, has not expired, has that much stock left, and names the owner, the policy, the mints, the
  -- escrow and the cash destination in their places. The token account in the escrow's place holds all
  -- the stock that is left, and the cash is at least the order's limit price for the exposure of the
  -- stock in the product's mint, without any rounding against the owner.
  pub validate_fill-Valid :
      (expected_revision stock_atoms cash_atoms : ℕ) (product : Conversion) (clock : Clock)
      (nonce : ℕ)
      → validate_fill find_program_address token token_2022 program a at expected_revision
          stock_atoms cash_atoms product clock
        ≡ ok nonce
      → Valid expected_revision stock_atoms cash_atoms product clock nonce
  unfolding validate_fill
  validate_fill-Valid expected stock cash product clock nonce h =
      let (_, _, h1) = >>=-eq-ok (need (in_range (length a) at) identity) _ h in
      let (order, e1, h2) = >>=-eq-ok (index a at.order) _ h1 in
      let (owner, e2, h3) = >>=-eq-ok (index a at.owner) _ h2 in
      let usable : Bool =
        order.is_writable
        && same_bytes order.owner program
        && not owner.is_writable
        && ltb 0 stock
        && ltb 0 cash in
      let (_, _, h4) = >>=-eq-ok (need usable identity) _ h3 in
      let ((number, remaining, minimum), e3, h5) =
        >>=-eq-ok
          (check_resting find_program_address token token_2022 program a at order.data_bytes
            expected stock clock.slot)
          _ h4 in
      let (escrow, i6, h6) = >>=-eq-ok (index a at.escrow) _ h5 in
      let (product_mint, i7, h7) = >>=-eq-ok (index a at.product_mint) _ h6 in
      let (product_program, i8, h8) = >>=-eq-ok (index a at.product_program) _ h7 in
      let (balance, e4, h9) =
        >>=-eq-ok (checked_asset token token_2022 order escrow product_mint product_program false) _
          h8 in
      let (_, n1, h10) = >>=-eq-ok (need (leb remaining balance) conservation) _ h9 in
      let (exposure, e5, h11) =
        >>=-eq-ok
          (convert token_2022 product_mint product.model product.conservative_bps product.numerator
            product.denominator stock clock.unix_timestamp)
          _ h10 in
      let (price, e6, h12) = >>=-eq-ok (ceil_q32 exposure minimum) _ h11 in
      let (_, n2, h13) = >>=-eq-ok (need (ltb 0 exposure && leb price cash) min_out) _ h12 in
      let (positive, met) =
        both_of exposure price cash (need-eq-ok (ltb 0 exposure && leb price cash) min_out n2) in
      record {
        order = order;
        escrow = escrow;
        product_mint = product_mint;
        product_program = product_program;
        ordered = e1;
        escrow_at = i6;
        product_mint_at = i7;
        product_program_at = i8;
        remaining = remaining;
        minimum = minimum;
        matches =
            subst (λ n. Matches order.data_bytes expected stock clock.slot n remaining minimum)
              (ok-inj h13)
              (check_resting-Matches order.data_bytes expected stock clock.slot number remaining
                minimum e3);
        balance = balance;
        holds = e4;
        amount =
            checked_asset-amount token token_2022 order escrow product_mint product_program false
              balance e4;
        covered = leb→le remaining balance (need-eq-ok (leb remaining balance) conservation n1);
        exposure = exposure;
        converts = e5;
        worth = positive;
        pays =
            scaled_le (exposure * minimum) price cash (ceil_q32-le exposure minimum price e6) met;
      }
