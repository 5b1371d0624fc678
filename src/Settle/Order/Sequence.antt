-- ===== src/Settle/Order/Sequence.antt =====
-- engine/stockmesh/programs/stocklana-settle/src/order.rs: an ask through any sequence of fills.
use xtxc.Common.{
  ℕ, ◌+◌, ◌-◌, ◌^◌, ◌≡◌, refl, subst, ◌∙◌, ◌≤◌, ◌<◌, arith, true, false, List, ◌==◌, length,
}
use xtxc.Settle.{ok, err, replay, conservation, bounds, checked_add, checked_sub}
use xtxc.Settle.Bytes.{to_le_bytes, copy_from_slice, put, length-to_le_bytes, length-put}
use xtxc.Settle.Layout
use xtxc.Settle.Order.{record_fill, order_len}
use xtxc.Settle.Order.Fills.{Resting, SameTerms, record_fill-Resting}

-- The data of an order after some fills, with their number, their stock and their cash.
pub data Filled (start : List ℕ) : List ℕ → ℕ → ℕ → ℕ → Type 0 where
  none_yet : Filled start start 0 0 0
  one_more :
      (d d' : List ℕ) (count stock cash expected_revision stock_atoms cash_atoms : ℕ)
      → Filled start d count stock cash
      → record_fill d expected_revision stock_atoms cash_atoms ≡ ok d'
      → Filled start d' (count + 1) (stock + stock_atoms) (cash + cash_atoms)

-- Whatever fills an open order goes through, at whatever revisions and amounts, the stock that they
-- take is no more than the order had, what is left is the rest of it, the cash paid has grown by what
-- they paid, the revision counts them, and no other byte of the order has changed.
pub Filled-Resting :
    (start d : List ℕ) (count stock cash remaining filled revision : ℕ)
    → Resting start remaining filled revision
    → Filled start d count stock cash
    → (stock ≤ remaining)
      × Resting d (remaining - stock) (filled + cash) (revision + count)
      × SameTerms start d
Filled-Resting start d count stock cash remaining filled revision v none_yet = (
  omega arith,
  subst (λ r. Resting start r (filled + 0) (revision + 0)) (omega arith)
      (subst (λ f. Resting start remaining f (revision + 0)) (omega arith)
        (subst (λ n. Resting start remaining filled n) (omega arith) v)),
  λ p n apart. refl,
)
Filled-Resting start end count' stock' cash' remaining filled revision v
      (one_more d d' count stock cash expected stock_atoms cash_atoms steps fill) =
    let (less, mid, terms) =
      Filled-Resting start d count stock cash remaining filled revision v steps in
    let (same, less2, last, terms2) =
      record_fill-Resting d d' (remaining - stock) (filled + cash) (revision + count) expected
        stock_atoms cash_atoms mid fill in
    (
      omega arith,
      subst (λ r. Resting d' r (filled + (cash + cash_atoms)) (revision + (count + 1)))
          (omega arith)
          (subst (λ f. Resting d' (remaining - stock - stock_atoms) f (revision + (count + 1)))
            (omega arith)
            (subst
              (λ n. Resting d' (remaining - stock - stock_atoms) (filled + cash + cash_atoms) n)
              (omega arith) last)),
      λ p n apart. terms2 p n apart ∙ terms p n apart,
    )

-- A fill is recorded once: at the revision that it was signed for, no further fill is accepted,
-- whatever its amounts are.
pub record_fill_once :
    (d d' : List ℕ) (remaining filled revision expected_revision stock_atoms cash_atoms : ℕ)
    → Resting d remaining filled revision
    → record_fill d expected_revision stock_atoms cash_atoms ≡ ok d'
    → (stock cash : ℕ) → record_fill d' expected_revision stock cash ≡ err replay
unfolding record_fill
record_fill_once d d' remaining filled revision expected stock_atoms cash_atoms v h stock cash =
    let (same, less, next, terms) =
      record_fill-Resting d d' remaining filled revision expected stock_atoms cash_atoms v h in
    let order = next.order in
    let resting = next.resting in
    let later : (revision + 1 == expected) ≡ false = ground arith in
    rw order (rw resting (rw next.number (rw later)))

copy_runs :
    (d : List ℕ) (o v : ℕ)
    → o + 8 ≤ length d
    → copy_from_slice d o (to_le_bytes 8 v) ≡ ok (put d o (to_le_bytes 8 v))
unfolding copy_from_slice
copy_runs d o v h = let eight = length-to_le_bytes 8 v in ground arith

-- An open order with enough stock is filled: only a sum of the cash or a revision beyond 64 bits can
-- stop a fill at the current revision.
pub record_fill_runs :
    (d : List ℕ) (remaining filled revision stock_atoms cash_atoms : ℕ)
    → Resting d remaining filled revision
    → stock_atoms ≤ remaining
    → filled + cash_atoms < 2 ^ 64
    → revision + 1 < 2 ^ 64
    → (d' : List ℕ) × (record_fill d revision stock_atoms cash_atoms ≡ ok d')
unfolding record_fill
record_fill_runs d remaining filled revision stock_atoms cash_atoms v enough fits fits2 =
    let long : length d ≡ order_len = let o = v.order in ground arith in
    let d1 : List ℕ = put d Layout.remaining_stock (to_le_bytes 8 (remaining - stock_atoms)) in
    let d2 : List ℕ = put d1 Layout.revision (to_le_bytes 8 (revision + 1)) in
    let d3 : List ℕ = put d2 Layout.filled_cash (to_le_bytes 8 (filled + cash_atoms)) in
    let len1 = length-put d Layout.remaining_stock (to_le_bytes 8 (remaining - stock_atoms)) in
    let len2 = length-put d1 Layout.revision (to_le_bytes 8 (revision + 1)) in
    let w1 = copy_runs d Layout.remaining_stock (remaining - stock_atoms) (omega arith) in
    let w2 = copy_runs d1 Layout.revision (revision + 1) (omega arith) in
    let w3 = copy_runs d2 Layout.filled_cash (filled + cash_atoms) (omega arith) in
    let current : (revision == revision) ≡ true = ground arith in
    let sub : checked_sub remaining stock_atoms conservation ≡ ok (remaining - stock_atoms) =
      ground arith in
    let add : checked_add filled cash_atoms conservation ≡ ok (filled + cash_atoms) =
      ground arith in
    let next : checked_add revision 1 bounds ≡ ok (revision + 1) = ground arith in
    (
      d3,
      rw v.order (
          rw v.resting (
            rw v.number (
              rw current (rw v.stock (rw sub (rw v.cash (rw add (rw w1 (rw next (rw w2 w3)))))))))),
    )
