-- ===== src/Settle/Order/Fills.antt =====
-- engine/stockmesh/programs/stocklana-settle/src/order.rs: what a fill of a resting ask does to its data, and sequences of fills.
use xtxc.Common.{
  ℕ, zero, suc, ◌+◌, ◌-◌, ◌^◌, ◌≡◌, refl, sym, ap, ◌∙◌, ◌≤◌, ◌<◌, inl, inr, arith, true, ◌&&◌, List,
  [], ◌∷◌, ◌==◌, get_or, ==_iff,
}
use xtxc.Settle.{
  ok, replay, conservation, bounds, need, checked_add, checked_sub, >>=-eq-ok, need-eq-ok, ok-inj,
}
use xtxc.Settle.Bytes.{to_le_bytes, u64_at, copy_from_slice, slice, Apart}
use xtxc.Settle.Layout
use xtxc.Settle.Order.{record_fill, is_order, has_status, open_status}
use xtxc.Settle.Order.Words.{Bytes, copy_from_slice-Wrote, u64_at-lt}

pub get_or-slice : (d : List ℕ) (p : ℕ) → get_or d p 0 ≡ get_or (slice d p 1) 0 0
get_or-slice [] zero = refl
get_or-slice [] (suc p) = refl
get_or-slice (b ∷ d) zero = refl
get_or-slice (b ∷ d) (suc p) = get_or-slice d p

-- An order in the data of its account: open, with the stock left, the cash paid and the revision.
pub record Resting (d : List ℕ) (remaining filled revision : ℕ) : Type 0 where
  pub bytes : Bytes d
  pub order : is_order d ≡ true
  pub resting : has_status open_status d ≡ true
  pub stock : u64_at d Layout.remaining_stock ≡ ok remaining
  pub cash : u64_at d Layout.filled_cash ≡ ok filled
  pub number : u64_at d Layout.revision ≡ ok revision

-- The bytes outside the words for the stock left, the revision and the cash paid.
abbrev pub Untouched : ℕ → ℕ → Type 0
Untouched p n =
    Apart Layout.remaining_stock 8 p n
    × Apart Layout.revision 8 p n
    × Apart Layout.filled_cash 8 p n

abbrev pub SameTerms : List ℕ → List ℕ → Type 0
SameTerms d d' = (p n : ℕ) → Untouched p n → slice d' p n ≡ slice d p n

check_add_facts : (a b x : ℕ) → checked_add a b bounds ≡ ok x → (x ≡ a + b) × (x < 2 ^ 64)
check_add_facts a b x h = ground arith

check_fill_facts : (a b x : ℕ) → checked_add a b conservation ≡ ok x → (x ≡ a + b) × (x < 2 ^ 64)
check_fill_facts a b x h = ground arith

check_sub_facts : (a b x : ℕ) → checked_sub a b conservation ≡ ok x → x + b ≡ a
check_sub_facts a b x h = ground arith

-- A fill that `record_fill` accepts is of an open order at the expected revision, and of no more stock
-- than it has left. It lowers the stock left and raises the cash paid by exactly the fill, advances the
-- revision by one, and changes no other byte of the order.
pub record_fill-Resting :
    (d d' : List ℕ) (remaining filled revision expected_revision stock_atoms cash_atoms : ℕ)
    → Resting d remaining filled revision
    → record_fill d expected_revision stock_atoms cash_atoms ≡ ok d'
    → (expected_revision ≡ revision)
      × (stock_atoms ≤ remaining)
      × Resting d' (remaining - stock_atoms) (filled + cash_atoms) (revision + 1)
      × SameTerms d d'
unfolding record_fill
record_fill-Resting d d' remaining filled revision expected stock cash v h =
    let (_, _, h1) = >>=-eq-ok (need (is_order d && has_status open_status d) replay) _ h in
    let (rev, e1, h2) = >>=-eq-ok (u64_at d Layout.revision) _ h1 in
    let (_, n1, h3) = >>=-eq-ok (need (rev == expected) replay) _ h2 in
    let (left, e2, h4) = >>=-eq-ok (u64_at d Layout.remaining_stock) _ h3 in
    let (rest, e3, h5) = >>=-eq-ok (checked_sub left stock conservation) _ h4 in
    let (paid, e4, h6) = >>=-eq-ok (u64_at d Layout.filled_cash) _ h5 in
    let (more, e5, h7) = >>=-eq-ok (checked_add paid cash conservation) _ h6 in
    let (d1, e6, h8) =
      >>=-eq-ok (copy_from_slice d Layout.remaining_stock (to_le_bytes 8 rest)) _ h7 in
    let (next, e7, h9) = >>=-eq-ok (checked_add expected 1 bounds) _ h8 in
    let (d2, e8, h10) = >>=-eq-ok (copy_from_slice d1 Layout.revision (to_le_bytes 8 next)) _ h9 in
    let at_rev : rev ≡ revision = ok-inj (sym e1 ∙ v.number) in
    let at_left : left ≡ remaining = ok-inj (sym e2 ∙ v.stock) in
    let at_paid : paid ≡ filled = ok-inj (sym e4 ∙ v.cash) in
    let expected_eq : rev ≡ expected =
      (==_iff rev expected).0 (need-eq-ok (rev == expected) replay n1) in
    let subtracted = check_sub_facts left stock rest e3 in
    let (added, more_fits) = check_fill_facts paid cash more e5 in
    let (advanced, next_fits) = check_add_facts expected 1 next e7 in
    let left_fits = u64_at-lt d Layout.remaining_stock left v.bytes e2 in
    let w1 = copy_from_slice-Wrote d d1 Layout.remaining_stock rest v.bytes (omega arith) e6 in
    let w2 = copy_from_slice-Wrote d1 d2 Layout.revision next w1.bytes next_fits e8 in
    let w3 = copy_from_slice-Wrote d2 d' Layout.filled_cash more w2.bytes more_fits h10 in
    let terms : SameTerms d d' =
      λ p n apart. w3.others p n apart.2 ∙ w2.others p n apart.1 ∙ w1.others p n apart.0 in
    (
      omega arith,
      omega arith,
      record {
        bytes = w3.bytes;
        order =
            let len = w3.as_long ∙ w2.as_long ∙ w1.as_long in
            let tag = terms 0 8 (inl (omega arith), inl (omega arith), inl (omega arith)) in
            rw len (rw tag v.order);
        resting =
            let kept =
              get_or-slice d Layout.status
              ∙ ap (λ t. get_or t 0 0)
                  (sym (
                    terms Layout.status 1
                      (inr (omega arith), inr (omega arith), inr (omega arith))))
              ∙ sym (get_or-slice d' Layout.status) in
            rw (sym kept) v.resting;
        stock =
            w3.elsewhere Layout.remaining_stock (inl (omega arith))
            ∙ w2.elsewhere Layout.remaining_stock (inl (omega arith))
            ∙ w1.reads
            ∙ ap ok (omega arith);
        cash = w3.reads ∙ ap ok (omega arith);
        number = w3.elsewhere Layout.revision (inl (omega arith)) ∙ w2.reads ∙ ap ok (omega arith);
      },
      terms,
    )
