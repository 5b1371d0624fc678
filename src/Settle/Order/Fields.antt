-- ===== src/Settle/Order/Fields.antt =====
-- engine/stockmesh/programs/stocklana-settle/src/order.rs: what is read after a sequence of writes to the data of an order.
use xtxc.Common.{
  ℕ, zero, suc, ◌+◌, ◌≡◌, sym, ap, subst, ◌∙◌, ◌≤◌, inl, inr, arith, Bool, true, false, ◌&&◌, ◌||◌,
  List, [], ◌∷◌, leb, ◌==◌, length, drop, All, Bool-cases,
}
use xtxc.Settle.{Program, ok, panic, index, ok-inj}
use xtxc.Settle.Bytes.{slice, put, length-put, slice-put, slice-put_before, slice-put_behind}
use xtxc.Settle.Order.Record.{Field, write_fields}
use xtxc.Settle.Order.Words.{Bytes, put-Bytes}

-- No later field overlaps the range.
abbrev pub clear : List Field → ℕ → ℕ → Bool
clear [] p n = true
clear (f ∷ fs) p n = (leb (p + n) f.offset || leb (f.offset + f.size) p) && clear fs p n

-- One write that goes through.
record Step (f : Field) (fs : List Field) (d d' : List ℕ) : Type 0 where
  pub sized : length f.content ≡ f.size
  pub inside : f.offset + f.size ≤ length d
  pub rest : write_fields fs (put d f.offset f.content) ≡ ok d'

abbrev write_or_abort : List Field → List ℕ → Field → Bool → Program (List ℕ)
write_or_abort fs d f fits = elim fits [
  | true ↦ write_fields fs (put d f.offset f.content)
  | false ↦ panic
]

step :
    (f : Field) (fs : List Field) (d d' : List ℕ) → write_fields (f ∷ fs) d ≡ ok d' → Step f fs d d'
unfolding write_fields
step f fs d d' h =
    elim (Bool-cases (length f.content == f.size && leb (f.offset + f.size) (length d))) [
      | inl e ↦ record {
        sized = ground arith;
        inside = ground arith;
        rest = subst (λ b. write_or_abort fs d f b ≡ ok d') e h;
      }
      | inr e ↦ let aborted = subst (λ b. write_or_abort fs d f b ≡ ok d') e h in cc
    ]

pub write_fields-length :
    (fs : List Field) (d d' : List ℕ) → write_fields fs d ≡ ok d' → length d' ≡ length d
unfolding write_fields
write_fields-length [] d d' h = ap length (sym (ok-inj h))
write_fields-length (f ∷ fs) d d' h =
    let s = step f fs d d' h in
    write_fields-length fs (put d f.offset f.content) d' s.rest ∙ length-put d f.offset f.content

pub write_fields-Bytes :
    (fs : List Field) (d d' : List ℕ)
    → Bytes d
    → All (λ (f : Field). Bytes f.content) fs
    → write_fields fs d ≡ ok d'
    → Bytes d'
unfolding write_fields
write_fields-Bytes [] d d' b all h = subst Bytes (ok-inj h) b
write_fields-Bytes (f ∷ fs) d d' b all h =
    write_fields-Bytes fs (put d f.offset f.content) d' (put-Bytes d f.offset f.content b all.0)
      all.1 (step f fs d d' h).rest

kept :
    (fs : List Field) (d d' : List ℕ) (p n : ℕ)
    → clear fs p n ≡ true
    → write_fields fs d ≡ ok d'
    → slice d' p n ≡ slice d p n
unfolding write_fields
kept [] d d' p n c h = ap (λ x. slice x p n) (sym (ok-inj h))
kept (f ∷ fs) d d' p n c h =
    let s = step f fs d d' h in
    let sized = s.sized in
    let rest = kept fs (put d f.offset f.content) d' p n (ground arith) s.rest in
    let apart : slice (put d f.offset f.content) p n ≡ slice d p n =
      elim (Bool-cases (leb (p + n) f.offset)) [
        | inl e ↦ slice-put_before d f.offset f.content p n (ground arith)
        | inr e ↦ slice-put_behind d f.offset f.content p n (ground arith)
      ] in
    rest ∙ apart

-- A field that no later one overlaps is there.
pub write_fields-slice :
    (i : ℕ) (fs : List Field) (d d' : List ℕ) (f : Field)
    → index fs i ≡ ok f
    → clear (drop (suc i) fs) f.offset f.size ≡ true
    → write_fields fs d ≡ ok d'
    → slice d' f.offset f.size ≡ f.content
unfolding write_fields
write_fields-slice i [] d d' f e c h = cc
write_fields-slice zero (g ∷ fs) d d' f e c h =
    let s = step g fs d d' h in
    let same : g ≡ f = ok-inj e in
    let there : slice (put d g.offset g.content) g.offset g.size ≡ g.content =
      ap (slice (put d g.offset g.content) g.offset) (sym s.sized)
      ∙ slice-put d g.offset g.content (let k = s.sized in let l = s.inside in omega arith) in
    let first : slice d' g.offset g.size ≡ g.content =
      kept fs (put d g.offset g.content) d' g.offset g.size
        (subst (λ (x : Field). clear fs x.offset x.size ≡ true) (sym same) c) s.rest
      ∙ there in
    subst (λ (x : Field). slice d' x.offset x.size ≡ x.content) same first
write_fields-slice (suc i) (g ∷ fs) d d' f e c h =
    let s = step g fs d d' h in write_fields-slice i fs (put d g.offset g.content) d' f e c s.rest
