-- ===== src/Settle/Order/Placed.antt =====
-- engine/stockmesh/programs/stocklana-settle/src/order.rs: the order that `place` leaves, as a fill finds it.
use xtxc.Common.{
  ℕ, zero, suc, ◌+◌, ◌^◌, ◌≡◌, refl, ap, subst, ◌∙◌, ◌≤◌, ◌<◌, arith, true, false, List, [], ◌∷◌,
  ltb, length, drop, get_or, replicate, All,
}
use xtxc.Settle.{ok, index, same_bytes, AccountInfo}
use xtxc.Settle.Bytes.{slice, to_le_bytes, from_le_bytes, u64_at, from_le_bytes-to_le_bytes}
use xtxc.Settle.Layout
use xtxc.Settle.Order.{is_order, has_status, open_status, order_tag, order_len, binds}
use xtxc.Settle.Order.Record.{Ask, Field, field, fields, write_fields, write_order}
use xtxc.Settle.Order.Words.{Bytes, to_le_bytes-Bytes}
use xtxc.Settle.Order.Fills.{Resting, get_or-slice}
use xtxc.Settle.Order.Fields.{write_fields-Bytes, write_fields-slice, clear}

same_bytes_refl : (bs : List ℕ) → same_bytes bs bs ≡ true
unfolding same_bytes
same_bytes_refl [] = refl
same_bytes_refl (b ∷ bs) = let rest = same_bytes_refl bs in ground arith

same_bytes_eq : (xs ys : List ℕ) → xs ≡ ys → same_bytes xs ys ≡ true
same_bytes_eq xs ys e = subst (λ t. same_bytes xs t ≡ true) e (same_bytes_refl xs)

zero_bytes : (n : ℕ) → Bytes (replicate n 0)
zero_bytes zero = tt
zero_bytes (suc n) = (omega arith, zero_bytes n)

word_at :
    (d : List ℕ) (o v : ℕ)
    → o + 8 ≤ length d
    → v < 2 ^ 64
    → slice d o 8 ≡ to_le_bytes 8 v
    → u64_at d o ≡ ok v
unfolding u64_at
word_at d o v fits small e =
    let value = from_le_bytes-to_le_bytes 8 v (omega arith) in
    let room : ltb (length d) (o + 8) ≡ false = ground arith in
    rw room (ap ok (ap from_le_bytes e ∙ value))

-- The words of an ask fit 64 bits, and the bytes of its parts are bytes.
pub record Sized (t : Ask) : Type 0 where
  pub nonce : t.order_nonce < 2 ^ 64
  pub stock : t.stock_atoms < 2 ^ 64
  pub minimum : t.minimum_cash_per_share < 2 ^ 64
  pub expires : t.expires_slot < 2 ^ 64
  pub model : t.product.model < 256
  pub instrument : Bytes t.instrument

module _ (owner claim cash_mint product_mint escrow cash_destination : AccountInfo) (t : Ask)
    (slot : ℕ) where
  written : List Field
  written =
      fields owner.key claim.key cash_mint.key product_mint.key escrow.key cash_destination.key t
        slot

  written-Bytes :
      Sized t
      → Bytes owner.key
      → Bytes claim.key
      → Bytes cash_mint.key
      → Bytes product_mint.key
      → Bytes escrow.key
      → Bytes cash_destination.key
      → All (λ (f : Field). Bytes f.content) written
  unfolding written
  written-Bytes s k0 k1 k2 k3 k4 k5 = (
    (
      omega arith,
      (
        omega arith,
        (
          omega arith,
          (omega arith, (omega arith, (omega arith, (omega arith, (omega arith, tt))))),
        ),
      ),
    ),
    (
      k0,
      (
        s.instrument,
        (
          k1,
          (
            k2,
            (
              k3,
              (
                k4,
                (
                  k5,
                  (
                    to_le_bytes-Bytes 8 t.order_nonce,
                    (
                      to_le_bytes-Bytes 8 t.stock_atoms,
                      (
                        to_le_bytes-Bytes 8 t.stock_atoms,
                        (
                          to_le_bytes-Bytes 8 t.minimum_cash_per_share,
                          (
                            to_le_bytes-Bytes 8 t.expires_slot,
                            (
                              to_le_bytes-Bytes 8 0,
                              (
                                to_le_bytes-Bytes 8 0,
                                (
                                  to_le_bytes-Bytes 8 slot,
                                  (
                                    to_le_bytes-Bytes 8 t.policy_version,
                                    (
                                      to_le_bytes-Bytes 8 t.product.numerator,
                                      (
                                        to_le_bytes-Bytes 8 t.product.denominator,
                                        (
                                          (s.model, tt),
                                          (
                                            to_le_bytes-Bytes 2 t.product.conservative_bps,
                                            ((omega arith, tt), tt),
                                          ),
                                        ),
                                      ),
                                    ),
                                  ),
                                ),
                              ),
                            ),
                          ),
                        ),
                      ),
                    ),
                  ),
                ),
              ),
            ),
          ),
        ),
      ),
    ),
  )

  -- The order written is open, and its terms are those of the ask.
  pub record Written (state : List ℕ) : Type 0 where
    pub resting : Resting state t.stock_atoms 0 0
    pub nonce : u64_at state Layout.order_nonce ≡ ok t.order_nonce
    pub minimum : u64_at state Layout.min_cash_per_share ≡ ok t.minimum_cash_per_share
    pub expires : u64_at state Layout.expires_slot ≡ ok t.expires_slot
    pub bound : binds state owner claim cash_mint product_mint escrow cash_destination ≡ true

  module _ (d state : List ℕ)
      (run : write_order owner.key claim.key cash_mint.key product_mint.key escrow.key
          cash_destination.key t slot d
        ≡ ok state)
      (long_state : length state ≡ order_len) where
    as_fields : write_fields written (replicate (length d) 0) ≡ ok state
    unfolding write_order written
    as_fields = run

    reads :
        (i : ℕ) (f : Field)
        → index written i ≡ ok f
        → clear (drop (suc i) written) f.offset f.size ≡ true
        → slice state f.offset f.size ≡ f.content
    reads i f e c = write_fields-slice i written (replicate (length d) 0) state f e c as_fields

    reads_word :
        (i o v : ℕ)
        → v < 2 ^ 64
        → o + 8 ≤ order_len
        → index written i ≡ ok (field o 8 (to_le_bytes 8 v))
        → clear (drop (suc i) written) o 8 ≡ true
        → u64_at state o ≡ ok v
    reads_word i o v small fits e c =
        let len = long_state in
        word_at state o v (omega arith) small (reads i (field o 8 (to_le_bytes 8 v)) e c)

    reads_key :
        (i o : ℕ) (key : List ℕ)
        → index written i ≡ ok (field o 32 key)
        → clear (drop (suc i) written) o 32 ≡ true
        → same_bytes (slice state o 32) key ≡ true
    reads_key i o key e c = same_bytes_eq (slice state o 32) key (reads i (field o 32 key) e c)

    is_order_written : is_order state ≡ true
    unfolding written
    is_order_written =
        let tag =
          same_bytes_eq (slice state 0 8) order_tag (reads 0 (field 0 8 order_tag) refl refl) in
        let len = long_state in ground arith

    is_open_written : has_status open_status state ≡ true
    unfolding written
    is_open_written =
        let status = reads 21 (field Layout.status 1 (open_status ∷ [])) refl refl in
        let byte : get_or state Layout.status 0 ≡ open_status =
          get_or-slice state Layout.status ∙ ap (λ x. get_or x 0 0) status in
        rw byte refl

    binds_written : binds state owner claim cash_mint product_mint escrow cash_destination ≡ true
    unfolding written binds
    binds_written = rw (reads_key 1 Layout.owner owner.key refl refl) (
        rw (reads_key 3 Layout.policy claim.key refl refl) (
          rw (reads_key 4 Layout.cash_mint cash_mint.key refl refl) (
            rw (reads_key 5 Layout.product_mint product_mint.key refl refl) (
              rw (reads_key 6 Layout.escrow escrow.key refl refl)
                (rw (reads_key 7 Layout.cash_destination cash_destination.key refl refl) refl)))))

    pub write_order-Written :
        Sized t
        → Bytes owner.key
        → Bytes claim.key
        → Bytes cash_mint.key
        → Bytes product_mint.key
        → Bytes escrow.key
        → Bytes cash_destination.key
        → Written state
    unfolding written
    write_order-Written s k0 k1 k2 k3 k4 k5 =
        let all = written-Bytes s k0 k1 k2 k3 k4 k5 in
        record {
          resting = record {
            bytes =
                write_fields-Bytes written (replicate (length d) 0) state (zero_bytes (length d))
                  all as_fields;
            order = is_order_written;
            resting = is_open_written;
            stock =
                reads_word 10 Layout.remaining_stock t.stock_atoms s.stock (omega arith) refl refl;
            cash = reads_word 14 Layout.filled_cash 0 (omega arith) (omega arith) refl refl;
            number = reads_word 13 Layout.revision 0 (omega arith) (omega arith) refl refl;
          };
          nonce = reads_word 8 Layout.order_nonce t.order_nonce s.nonce (omega arith) refl refl;
          minimum =
              reads_word 11 Layout.min_cash_per_share t.minimum_cash_per_share s.minimum
                (omega arith) refl refl;
          expires =
              reads_word 12 Layout.expires_slot t.expires_slot s.expires (omega arith) refl refl;
          bound = binds_written;
        }
