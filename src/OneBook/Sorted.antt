-- ===== src/OneBook/Sorted.antt =====
-- engine/stockmesh/onebook/mod.rs: the compiled virtual book.
use xtxc.Common.{
  ℕ, ◌+◌, ◌*◌, ◌≡◌, refl, sym, subst, inl, inr, arith, true, false, ◌||◌, List, [], ◌∷◌, ltb, ◌==◌,
  length, Bool-cases,
}
use xtxc.Common.Outcome.{
  ok, reject, ceil_div, as_u64, checked_add, index, bounds, identity, invalid_amount, arithmetic,
  scale, u128_mod, ok-inj,
}
use xtxc.Common.Meter.{WorkMeter, charge, lift, >>=-eq-ok}
use xtxc.OneBook.Levels.{
  ExecutableSlice, VirtualLevel, VirtualBook, stays, all_move, insert, refuses, level_of,
  add_slices, compile_virtual_book, max_virtual_levels,
}

-- The levels stand in the order of (price, claim, source).
abbrev pub Sorted : List VirtualLevel → Type 0
Sorted [] = Unit
Sorted (a ∷ []) = Unit
Sorted (a ∷ b ∷ bs) = (stays a b ≡ true) × Sorted (b ∷ bs)

unfoldable pub total_of : List VirtualLevel → ℕ
total_of [] = 0
total_of (l ∷ ls) = l.exposure_q32 + total_of ls

unfoldable pub slices_of : List ExecutableSlice → ℕ
slices_of [] = 0
slices_of (s ∷ ss) = s.exposure_q32 + slices_of ss

stays_other : (a b : VirtualLevel) → stays a b ≡ false → stays b a ≡ true
unfolding stays
stays_other a b h = ground arith

insert_total :
    (a : VirtualLevel) (ls : List VirtualLevel)
    → total_of (insert a ls) ≡ a.exposure_q32 + total_of ls
unfolding insert total_of
insert_total a [] = refl
insert_total a (l ∷ ls) = elim (Bool-cases (all_move a (l ∷ ls))) [
  | inl c ↦ ground arith
  | inr c ↦ let rest = insert_total a ls in ground arith
]

insert-Sorted : (a : VirtualLevel) (ls : List VirtualLevel) → Sorted ls → Sorted (insert a ls)
unfolding insert all_move
insert-Sorted a [] s = tt
insert-Sorted a (l ∷ []) s = elim (Bool-cases (stays l a)) [
  | inl c ↦ let shape : l ∷ a ∷ [] ≡ insert a (l ∷ []) = ground arith in subst Sorted shape (c, tt)
  | inr c ↦
      let shape : a ∷ l ∷ [] ≡ insert a (l ∷ []) = ground arith in
      subst Sorted shape (stays_other l a c, tt)
]
insert-Sorted a (l ∷ k ∷ ks) s = elim (Bool-cases (all_move a (l ∷ k ∷ ks))) [
  | inl c ↦
      let shape : a ∷ l ∷ k ∷ ks ≡ insert a (l ∷ k ∷ ks) = ground arith in
      subst Sorted shape (stays_other l a (ground arith), s)
  | inr c ↦
      let rest = insert-Sorted a (k ∷ ks) s.1 in
      let shape : l ∷ insert a (k ∷ ks) ≡ insert a (l ∷ k ∷ ks) = ground arith in
      elim (Bool-cases (all_move a (k ∷ ks))) [
        | inl d ↦
            let inner : a ∷ k ∷ ks ≡ insert a (k ∷ ks) = ground arith in
            let tail : Sorted (a ∷ k ∷ ks) = subst Sorted (sym inner) rest in
            subst Sorted shape (subst (λ xs. Sorted (l ∷ xs)) inner (ground arith, tail))
        | inr d ↦
            let inner : k ∷ insert a ks ≡ insert a (k ∷ ks) = ground arith in
            let tail : Sorted (k ∷ insert a ks) = subst Sorted (sym inner) rest in
            subst Sorted shape (subst (λ xs. Sorted (l ∷ xs)) inner (s.0, tail))
      ]
]

add_slices_cases :
    (slot : ℕ) (ss : List ExecutableSlice) (b b' : VirtualBook) (m : WorkMeter)
    → (add_slices slot ss b m).0 ≡ ok b'
    → Sorted b.levels
    → b.total_exposure_q32 ≡ total_of b.levels
    → Sorted b'.levels
      × (b'.total_exposure_q32 ≡ total_of b'.levels)
      × (b'.total_exposure_q32 ≡ b.total_exposure_q32 + slices_of ss)
unfolding add_slices slices_of
add_slices_cases slot [] b b' m h s t =
    subst
      (λ c.
        Sorted c.levels
        × (c.total_exposure_q32 ≡ total_of c.levels)
        × (c.total_exposure_q32 ≡ b.total_exposure_q32 + 0))
      (ok-inj h) (s, t, ground arith)
add_slices_cases slot (x ∷ ss) b b' m h s t =
    let (_, _, h2) = >>=-eq-ok (charge 1) _ m b' h in
    let (_, _, h3) =
      >>=-eq-ok (lift (reject (refuses slot b.state_hash x) invalid_amount)) _ _ b' h2 in
    let (wide, _, h4) =
      >>=-eq-ok (lift (ceil_div (x.input_usdc_atoms * scale * scale) x.exposure_q32)) _ _ b' h3 in
    let (price, _, h5) = >>=-eq-ok (lift (as_u64 wide)) _ _ b' h4 in
    let (total, e, h6) =
      >>=-eq-ok (lift (checked_add u128_mod b.total_exposure_q32 x.exposure_q32 arithmetic)) _ _ b'
        h5 in
    let level = level_of b.state_hash x price in
    let sum : total ≡ b.total_exposure_q32 + x.exposure_q32 = ground arith in
    let grown = insert_total level b.levels in
    let next : VirtualBook = record {
      levels = insert level b.levels;
      total_exposure_q32 = total;
      state_hash = b.state_hash;
    } in
    let (sorted, same, all) =
      add_slices_cases slot ss next b' _ h6 (insert-Sorted level b.levels s) (ground arith) in
    (sorted, same, ground arith)

-- A compiled virtual book is in the order of price, claim and source, and its total is the
-- exposure of its levels, which is that of all the slices.
pub compile_virtual_book-Sorted :
    (slices : List ExecutableSlice) (slot : ℕ) (m : WorkMeter) (b : VirtualBook)
    → (compile_virtual_book slices slot m).0 ≡ ok b
    → Sorted b.levels
      × (b.total_exposure_q32 ≡ total_of b.levels)
      × (b.total_exposure_q32 ≡ slices_of slices)
unfolding compile_virtual_book total_of
compile_virtual_book-Sorted slices slot m b h =
    let (_, _, h2) =
      >>=-eq-ok
        (lift (reject (length slices == 0 || ltb max_virtual_levels (length slices)) bounds)) _ m b
        h in
    let (first, _, h3) = >>=-eq-ok (lift (index slices 0)) _ _ b h2 in
    let (_, _, h4) = >>=-eq-ok (lift (reject (first.state_hash == 0) identity)) _ _ b h3 in
    let (sorted, same, all) =
      add_slices_cases slot slices
        (record { levels = []; total_exposure_q32 = 0; state_hash = first.state_hash }) b _ h4 tt
        refl in
    (sorted, same, ground arith)
