-- ===== src/Admission/Once.antt =====
-- engine/stockmesh/runtime/admission.rs: that a ticket completes once, whatever the lane does before and after.
use xtxc.Common.{
  ℕ, ◌≡◌, refl, sym, ap, ◌∙◌, ◌≤◌, arith, true, false, none, some, get_or, set, ◌==◌, inl, inr,
  Option-cases, Bool-cases, ==_iff, subst, replicate, zero, suc, Option,
}
use xtxc.Common.Outcome.{ok, err, invalid_ticket}
use xtxc.Admission.{
  Ticket, Entry, Admission, new_admission, queue_capacity, is_ready, reads_of, writes_of, find,
  complete,
}
use xtxc.Admission.Moves.{
  Steps, at_start, admitted, dispatched, completed, Holds, kept, entered, launched, done, Moves,
  admit-Moves, dispatch-Moves, complete-Moves, find_is, get_or-set_here,
}

-- No entry is of a generation to come.
IsNumbered : Admission → Type 0
IsNumbered a = (i : ℕ) (e : Entry) → Holds a i e → e.generation ≤ a.generation

-- The ticket has been used: if its request is still in its place, it is completed.
record IsSpent (t : Ticket) (a : Admission) : Type 0 where
  pub issued : t.generation ≤ a.generation
  pub over : (e : Entry) → Holds a t.index e → e.generation ≡ t.generation → e.completed ≡ true

Moves-IsNumbered : (a b : Admission) → Moves a b → IsNumbered a → IsNumbered b
unfolding IsNumbered
Moves-IsNumbered a b m v i e h =
    let later = m.later in
    elim (m.origin i e h) [
      | kept g ↦ let old = v i e g in omega arith
      | entered g k f ↦ omega arith
      | launched now x g same good others ↦
          let old = v i x g in let number = ap (λ (y : Entry). y.generation) same in omega arith
      | done x g same ↦
          let old = v i x g in let number = ap (λ (y : Entry). y.generation) same in omega arith
    ]

ready_open :
    (now reads writes : ℕ) (e : Entry) → is_ready now reads writes e ≡ true → e.completed ≡ false
ready_open now reads writes e h = ground arith

Moves-IsSpent : (t : Ticket) (a b : Admission) → Moves a b → IsSpent t a → IsSpent t b
Moves-IsSpent t a b m v = record {
  issued = let later = m.later in let old = v.issued in omega arith;
  over = λ e h number. elim (m.origin t.index e h) [
    | kept g ↦ v.over e g number
    | entered g k f ↦ let old = v.issued in absurd (omega arith)
    | launched now x g same good others ↦
        let was = v.over x g (sym (ap (λ (y : Entry). y.generation) same) ∙ number) in
        let fresh = ready_open now (reads_of a.entries) (writes_of a.entries) x good in ground arith
    | done x g same ↦ ap (λ (y : Entry). y.completed) same
  ];
}

Steps-IsNumbered : (a b : Admission) → IsNumbered a → Steps a b → IsNumbered b
Steps-IsNumbered a b v at_start = v
Steps-IsNumbered a b v (admitted c d r now s e) =
    subst IsNumbered e (Moves-IsNumbered c _ (admit-Moves c r now) (Steps-IsNumbered a c v s))
Steps-IsNumbered a b v (dispatched c d now s e) =
    subst IsNumbered e (Moves-IsNumbered c _ (dispatch-Moves c now) (Steps-IsNumbered a c v s))
Steps-IsNumbered a b v (completed c d t s e) =
    Moves-IsNumbered c d (complete-Moves c d t e) (Steps-IsNumbered a c v s)

Steps-IsSpent : (t : Ticket) (a b : Admission) → IsSpent t a → Steps a b → IsSpent t b
Steps-IsSpent t a b v at_start = v
Steps-IsSpent t a b v (admitted c d r now s e) =
    subst (IsSpent t) e (Moves-IsSpent t c _ (admit-Moves c r now) (Steps-IsSpent t a c v s))
Steps-IsSpent t a b v (dispatched c d now s e) =
    subst (IsSpent t) e (Moves-IsSpent t c _ (dispatch-Moves c now) (Steps-IsSpent t a c v s))
Steps-IsSpent t a b v (completed c d u s e) =
    Moves-IsSpent t c d (complete-Moves c d u e) (Steps-IsSpent t a c v s)

pub empty_at : (n i : ℕ) → get_or (replicate {A = Option Entry} n none) i none ≡ none
empty_at zero i = refl
empty_at (suc n) zero = refl
empty_at (suc n) (suc i) = empty_at n i

new-IsNumbered : IsNumbered new_admission
unfolding IsNumbered
new-IsNumbered i e h = let free = empty_at queue_capacity i in cc

complete-IsSpent : (a b : Admission) (t : Ticket) → IsNumbered a → complete a t ≡ ok b → IsSpent t b
unfolding complete IsNumbered
complete-IsSpent a b t v h = elim (Option-cases (find a.entries t.index)) [
  | inl n ↦ ground arith
  | inr (x, f) ↦
      let old = v t.index x (sym (find_is a.entries t.index) ∙ f) in
      let number : x.generation ≡ t.generation = ground arith in
      let count : b.generation ≡ a.generation = ground arith in
      let entries : set a.entries t.index (some (record x { in_flight = false; completed = true }))
          ≡ b.entries =
        ground arith in
      record {
        issued = omega arith;
        over = λ e g n.
            ap (λ (y : Entry). y.completed)
              (sym (
                get_or-set_here a.entries t.index (record x { in_flight = false; completed = true })
                  e (subst (λ es. get_or es t.index none ≡ some e) (sym entries) g)));
      }
]

IsSpent-refused : (t : Ticket) (a : Admission) → IsSpent t a → complete a t ≡ err invalid_ticket
unfolding complete
IsSpent-refused t a v = elim (Option-cases (find a.entries t.index)) [
  | inl n ↦ ground arith
  | inr (x, f) ↦ elim (Bool-cases (x.generation == t.generation)) [
    | inl hit ↦
        let over =
          v.over x (sym (find_is a.entries t.index) ∙ f)
            ((==_iff x.generation t.generation).0 hit) in
        ground arith
    | inr miss ↦ ground arith
  ]
]

-- A ticket completes at most once: in a lane that has come from the new one by any calls, once a ticket
-- has completed, it is refused after any further calls, also when another request has taken its place.
pub complete_once :
    (a b c : Admission) (t : Ticket)
    → Steps new_admission a
    → complete a t ≡ ok b
    → Steps b c
    → complete c t ≡ err invalid_ticket
complete_once a b c t before h after = IsSpent-refused t c (
    Steps-IsSpent t b c
      (complete-IsSpent a b t (Steps-IsNumbered new_admission a new-IsNumbered before) h) after)
