-- ===== src/Admission/Apart.antt =====
-- engine/stockmesh/runtime/admission.rs: that no two requests in flight conflict.
use xtxc.Common.{
  ℕ, zero, suc, ◌≡◌, ◌≢◌, refl, sym, ap, subst, ◌∙◌, ◌≤◌, arith, true, false, Option, none, some,
  List, [], ◌∷◌, get_or, set, inl, inr, Option-cases, Bool-cases, bit_and, bit_or,
}
use xtxc.Common.Bits.{bit_and-bit_or, bit_and_comm}
use xtxc.Admission.{
  Request, Ticket, Entry, Admission, new_admission, queue_capacity, is_ready, reads_of, writes_of,
  pick, dispatch,
}
use xtxc.Admission.Lane.{AreFair, IsFair, replace-AreFair, get_or_at, pick_cases}
use xtxc.Admission.Once.{empty_at}
use xtxc.Admission.Moves.{
  Steps, at_start, admitted, dispatched, completed, Holds, kept, entered, launched, done, Moves,
  admit-Moves, dispatch-Moves, complete-Moves,
}

-- Neither request writes what the other one reads or writes.
pub record Apart (r s : Request) : Type 0 where
  pub write_write : bit_and r.write_resources s.write_resources ≡ 0
  pub write_read : bit_and r.write_resources s.read_resources ≡ 0
  pub read_write : bit_and r.read_resources s.write_resources ≡ 0

Apart-comm : (r s : Request) → Apart r s → Apart s r
Apart-comm r s h = record {
  write_write = bit_and_comm s.write_resources r.write_resources ∙ h.write_write;
  write_read = bit_and_comm s.write_resources r.read_resources ∙ h.read_write;
  read_write = bit_and_comm s.read_resources r.write_resources ∙ h.write_read;
}

-- A mask apart from what is in flight is apart from each request in flight.
apart_reads :
    (m : ℕ) (es : List (Option Entry)) (i : ℕ) (e : Entry)
    → bit_and m (reads_of es) ≡ 0
    → get_or es i none ≡ some e
    → e.in_flight ≡ true
    → bit_and m e.request.read_resources ≡ 0
unfolding reads_of
apart_reads m [] i e h g f = cc
apart_reads m (none ∷ es) zero e h g f = cc
apart_reads m (none ∷ es) (suc i) e h g f = apart_reads m es i e h g f
apart_reads m (some x ∷ es) zero e h g f =
    let same : x ≡ e = cc in
    let busy : x.in_flight ≡ true = ap (λ (y : Entry). y.in_flight) same ∙ f in
    subst (λ (y : Entry). bit_and m y.request.read_resources ≡ 0) same
      (bit_and-bit_or m x.request.read_resources (reads_of es) (rw busy at h)).0
apart_reads m (some x ∷ es) (suc i) e h g f = elim (Bool-cases x.in_flight) [
  | inl busy ↦
      apart_reads m es i e
        (bit_and-bit_or m x.request.read_resources (reads_of es) (rw busy at h)).1 g f
  | inr idle ↦ apart_reads m es i e (rw idle at h) g f
]

apart_writes :
    (m : ℕ) (es : List (Option Entry)) (i : ℕ) (e : Entry)
    → bit_and m (writes_of es) ≡ 0
    → get_or es i none ≡ some e
    → e.in_flight ≡ true
    → bit_and m e.request.write_resources ≡ 0
unfolding writes_of
apart_writes m [] i e h g f = cc
apart_writes m (none ∷ es) zero e h g f = cc
apart_writes m (none ∷ es) (suc i) e h g f = apart_writes m es i e h g f
apart_writes m (some x ∷ es) zero e h g f =
    let same : x ≡ e = cc in
    let busy : x.in_flight ≡ true = ap (λ (y : Entry). y.in_flight) same ∙ f in
    subst (λ (y : Entry). bit_and m y.request.write_resources ≡ 0) same
      (bit_and-bit_or m x.request.write_resources (writes_of es) (rw busy at h)).0
apart_writes m (some x ∷ es) (suc i) e h g f = elim (Bool-cases x.in_flight) [
  | inl busy ↦
      apart_writes m es i e
        (bit_and-bit_or m x.request.write_resources (writes_of es) (rw busy at h)).1 g f
  | inr idle ↦ apart_writes m es i e (rw idle at h) g f
]

ready_masks :
    (now reads writes : ℕ) (e : Entry)
    → is_ready now reads writes e ≡ true
    → (bit_and e.request.write_resources (bit_or reads writes) ≡ 0)
      × (bit_and e.request.read_resources writes ≡ 0)
      × (now ≤ e.request.deadline)
      × (e.in_flight ≡ false)
      × (e.completed ≡ false)
ready_masks now reads writes e h =
    (ground arith, ground arith, ground arith, ground arith, ground arith)

-- An entry that is ready is apart from every request in flight.
ready-Apart :
    (now : ℕ) (a : Admission) (e : Entry)
    → is_ready now (reads_of a.entries) (writes_of a.entries) e ≡ true
    → (j : ℕ) (f : Entry) → Holds a j f
    → f.in_flight ≡ true
    → Apart e.request f.request
ready-Apart now a e h j f g busy =
    let (write, read, _, _, _) = ready_masks now (reads_of a.entries) (writes_of a.entries) e h in
    let (write_reads, write_writes) =
      bit_and-bit_or e.request.write_resources (reads_of a.entries) (writes_of a.entries) write in
    record {
      write_write = apart_writes e.request.write_resources a.entries j f write_writes g busy;
      write_read = apart_reads e.request.write_resources a.entries j f write_reads g busy;
      read_write = apart_writes e.request.read_resources a.entries j f read g busy;
    }

-- What a dispatched request is.
pub record IsDispatched (a : Admission) (now : ℕ) (t : Ticket) (r : Request) : Type 0 where
  pub entry : Entry
  pub there : Holds a t.index entry
  pub its_request : entry.request ≡ r
  pub its_ticket : entry.generation ≡ t.generation
  pub waiting : entry.in_flight ≡ false
  pub unfinished : entry.completed ≡ false
  pub timely : now ≤ r.deadline
  pub apart : (j : ℕ) (f : Entry) → Holds a j f → f.in_flight ≡ true → Apart r f.request

-- A dispatched request is one that waits in the lane, at its ticket's place and generation, and is not
-- late. It conflicts with no request in flight: it writes nothing that one of them reads or writes, and
-- reads nothing that one of them writes. A lane that was fair stays fair.
pub dispatch_safe :
    (a : Admission) (now : ℕ) (t : Ticket) (r : Request) (a' : Admission)
    → dispatch a now ≡ (some (t, r), a')
    → IsFair a
    → IsDispatched a now t r × IsFair a'
unfolding dispatch
dispatch_safe a now t r a' h v =
    elim (Option-cases
      (pick a.entries now (reads_of a.entries) (writes_of a.entries) a.cursor queue_capacity)) [
        | inl n ↦ ground arith
        | inr ((i, e), f) ↦
            let (place, good) =
              pick_cases a.entries now (reads_of a.entries) (writes_of a.entries) a.cursor
                queue_capacity i e f in
            let (_, _, early, waiting, unfinished) =
              ready_masks now (reads_of a.entries) (writes_of a.entries) e good in
            let same : set a.entries i (some (record e { in_flight = true })) ≡ a'.entries =
              ground arith in
            let asked : e.request ≡ r = ground arith in
            let at : i ≡ t.index = ground arith in
            (
              record {
                entry = e;
                there = subst (λ j. get_or a.entries j none ≡ some e) at place;
                its_request = asked;
                its_ticket = ground arith;
                waiting = waiting;
                unfinished = unfinished;
                timely = subst (λ (q : Request). now ≤ q.deadline) asked early;
                apart = λ j g k busy.
                    subst (λ (q : Request). Apart q g.request) asked
                      (ready-Apart now a e good j g k busy);
              },
              subst AreFair same (
                  replace-AreFair a.entries i e (record e { in_flight = true })
                    (get_or_at a.entries i e place) refl (inl refl) v),
            )
      ]

-- No two requests in flight conflict.
pub AreApart : Admission → Type 0
AreApart a =
    (i j : ℕ) (e f : Entry)
    → Holds a i e
    → Holds a j f
    → i ≢ j
    → e.in_flight ≡ true
    → f.in_flight ≡ true
    → Apart e.request f.request

-- A request in flight was so before, or it has just been launched.
launched-Apart :
    (a b : Admission) (now i j : ℕ) (before e f : Entry)
    → e ≡ record before { in_flight = true }
    → is_ready now (reads_of a.entries) (writes_of a.entries) before ≡ true
    → ((k : ℕ) → k ≢ i → get_or b.entries k none ≡ get_or a.entries k none)
    → Holds b j f
    → j ≢ i
    → f.in_flight ≡ true
    → Apart e.request f.request
launched-Apart a b now i j before e f same good others g apart busy =
    subst (λ (q : Request). Apart q f.request) (sym (ap (λ (y : Entry). y.request) same))
      (ready-Apart now a before good j f (sym (others j apart) ∙ g) busy)

Moves-AreApart : (a b : Admission) → Moves a b → AreApart a → AreApart b
unfolding AreApart
Moves-AreApart a b m v i j e f h g apart busy busy' = elim (m.origin i e h) [
  | kept h' ↦ elim (m.origin j f g) [
    | kept g' ↦ v i j e f h' g' apart busy busy'
    | entered x y idle ↦ cc
    | launched now before g' same good others ↦
        Apart-comm f.request e.request
          (launched-Apart a b now j i before f e same good others h apart busy)
    | done before g' same ↦
        let idle : f.in_flight ≡ false = ap (λ (y : Entry). y.in_flight) same in cc
  ]
  | entered x y idle ↦ cc
  | launched now before h' same good others ↦
      launched-Apart a b now i j before e f same good others g (λ p. apart (sym p)) busy'
  | done before h' same ↦
      let idle : e.in_flight ≡ false = ap (λ (y : Entry). y.in_flight) same in cc
]

Steps-AreApart : (a b : Admission) → AreApart a → Steps a b → AreApart b
Steps-AreApart a b v at_start = v
Steps-AreApart a b v (admitted c d r now s e) =
    subst AreApart e (Moves-AreApart c _ (admit-Moves c r now) (Steps-AreApart a c v s))
Steps-AreApart a b v (dispatched c d now s e) =
    subst AreApart e (Moves-AreApart c _ (dispatch-Moves c now) (Steps-AreApart a c v s))
Steps-AreApart a b v (completed c d t s e) =
    Moves-AreApart c d (complete-Moves c d t e) (Steps-AreApart a c v s)

-- In a lane that has come from the new one by any calls no two requests in flight conflict: neither
-- writes what the other one reads or writes.
pub lane-AreApart : (a : Admission) → Steps new_admission a → AreApart a
unfolding AreApart
lane-AreApart a s =
    Steps-AreApart new_admission a
      (λ i j e f h. let free = empty_at queue_capacity i in λ g apart busy busy'. cc) s
