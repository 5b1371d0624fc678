-- ===== src/Admission/Moves.antt =====
-- engine/stockmesh/runtime/admission.rs: any sequence of calls on the lane, and where each entry comes from.
use xtxc.Common.{
  ℕ, zero, suc, ◌+◌, ◌≡◌, ◌≢◌, refl, sym, ap, subst, ◌∙◌, ◌≤◌, arith, true, false, Option, none,
  some, List, [], ◌∷◌, ltb, ◌==◌, get_or, set, inl, inr, Option-cases, Bool-cases, ==_iff,
}
use xtxc.Common.Outcome.{ok, Outcome-cases}
use xtxc.Admission.{
  Request, Ticket, Entry, Admission, queue_capacity, is_dead, purge, count_owned, first_free, enter,
  admit, pick, is_ready, dispatch, reads_of, writes_of, find, complete,
}
use xtxc.Admission.Lane.{pick_cases}

-- The lane after any calls; a call that fails leaves what it left behind.
pub data Steps (start : Admission) : Admission → Type 0 where
  at_start : Steps start start
  admitted :
      (a b : Admission) (r : Request) (now : ℕ)
      → Steps start a
      → (admit a r now).1 ≡ b
      → Steps start b
  dispatched : (a b : Admission) (now : ℕ) → Steps start a → (dispatch a now).1 ≡ b → Steps start b
  completed : (a b : Admission) (t : Ticket) → Steps start a → complete a t ≡ ok b → Steps start b

-- The entry in a place of the lane.
abbrev pub Holds : Admission → ℕ → Entry → Type 0
Holds a i e = get_or a.entries i none ≡ some e

-- Where an entry that a call leaves comes from: it was there, it is new, it was launched, or it is done.
pub data Origin (a b : Admission) (i : ℕ) (e : Entry) : Type 0 where
  kept : Holds a i e → Origin a b i e
  entered :
      e.generation ≡ a.generation + 1
      → a.generation + 1 ≤ b.generation
      → e.in_flight ≡ false
      → Origin a b i e
  launched :
      (now : ℕ) (before : Entry)
      → Holds a i before
      → e ≡ record before { in_flight = true }
      → is_ready now (reads_of a.entries) (writes_of a.entries) before ≡ true
      → ((j : ℕ) → j ≢ i → get_or b.entries j none ≡ get_or a.entries j none)
      → Origin a b i e
  done :
      (before : Entry)
      → Holds a i before
      → e ≡ record before { in_flight = false; completed = true }
      → Origin a b i e

-- A call moves the lane: the generation does not fall, and every entry has its origin.
pub record Moves (a b : Admission) : Type 0 where
  pub later : a.generation ≤ b.generation
  pub origin : (i : ℕ) (e : Entry) → Holds b i e → Origin a b i e

pub some-inj : {x y : Entry} → some x ≡ some y → x ≡ y
some-inj h = cc

get_or-set_elsewhere :
    (es : List (Option Entry)) (k i : ℕ) (x : Option Entry)
    → i ≢ k
    → get_or (set es k x) i none ≡ get_or es i none
get_or-set_elsewhere [] k i x h = refl
get_or-set_elsewhere (e ∷ es) zero zero x h = absurd (h refl)
get_or-set_elsewhere (e ∷ es) zero (suc i) x h = refl
get_or-set_elsewhere (e ∷ es) (suc k) zero x h = refl
get_or-set_elsewhere (e ∷ es) (suc k) (suc i) x h =
    get_or-set_elsewhere es k i x (λ p. h (ap suc p))

pub get_or-set_here :
    (es : List (Option Entry)) (k : ℕ) (x e : Entry)
    → get_or (set es k (some x)) k none ≡ some e
    → x ≡ e
get_or-set_here [] k x e h = cc
get_or-set_here (y ∷ es) zero x e h = some-inj h
get_or-set_here (y ∷ es) (suc k) x e h = get_or-set_here es k x e h

-- An entry of a lane in which one place is set: the one that is set, or one that was there.
set_cases :
    (C : Type 0) (es : List (Option Entry)) (k i : ℕ) (x e : Entry)
    → get_or (set es k (some x)) i none ≡ some e
    → (i ≡ k → x ≡ e → C)
    → (get_or es i none ≡ some e → C)
    → C
set_cases C es k i x e h f g = elim (Bool-cases (i == k)) [
  | inl hit ↦
      let same = (==_iff i k).0 hit in
      f same
        (get_or-set_here es k x e (subst (λ j. get_or (set es k (some x)) j none ≡ some e) same h))
  | inr miss ↦
      let apart : i ≢ k = λ p. miss_at i k miss p in
      g (sym (get_or-set_elsewhere es k i (some x) apart) ∙ h)
]
  where
    miss_at : (i k : ℕ) → (i == k) ≡ false → i ≢ k
    miss_at i k m p = ground arith

purge_at :
    (now : ℕ) (es : List (Option Entry)) (i : ℕ) (e : Entry)
    → get_or (purge now es) i none ≡ some e
    → get_or es i none ≡ some e
unfolding purge
purge_at now [] i e h = h
purge_at now (none ∷ es) zero e h = h
purge_at now (none ∷ es) (suc i) e h = purge_at now es i e h
purge_at now (some x ∷ es) zero e h = elim (Bool-cases (is_dead now x)) [
  | inl dead ↦ ground arith
  | inr alive ↦ ground arith
]
purge_at now (some x ∷ es) (suc i) e h = purge_at now es i e h

pub find_is : (es : List (Option Entry)) (i : ℕ) → find es i ≡ get_or es i none
unfolding find
find_is [] i = refl
find_is (x ∷ es) zero = refl
find_is (x ∷ es) (suc i) = find_is es i

purged-Moves : (a : Admission) (now : ℕ) → Moves a (record a { entries = purge now a.entries })
purged-Moves a now = record {
  later = omega arith;
  origin = λ i e h. kept (purge_at now a.entries i e h);
}

enter-Moves :
    (a p b : Admission) (now : ℕ) (r : Request) (t : Ticket)
    → p ≡ record a { entries = purge now a.entries }
    → enter p r ≡ ok (t, b)
    → Moves a b
unfolding enter
enter-Moves a p b now r t q h = elim (Outcome-cases (count_owned r p.entries 0)) [
  | inl (owned, e) ↦ elim (Option-cases (first_free 0 p.entries)) [
    | inl n ↦ ground arith
    | inr (k, f) ↦
        let new : Entry = record {
          request = r;
          generation = p.generation + 1;
          in_flight = false;
          completed = false;
        } in
        let entries : set p.entries k (some new) ≡ b.entries = ground arith in
        let number : b.generation ≡ p.generation + 1 = ground arith in
        let before : p.entries ≡ purge now a.entries = ap (λ (x : Admission). x.entries) q in
        let count : p.generation ≡ a.generation = ap (λ (x : Admission). x.generation) q in
        record {
          later = omega arith;
          origin = λ i x g.
              set_cases (Origin a b i x) p.entries k i new x
                (subst (λ es. get_or es i none ≡ some x) (sym entries) g)
                (λ here same.
                  entered (sym (ap (λ (y : Entry). y.generation) same) ∙ ap (λ n. n + 1) count)
                    (omega arith) (sym (ap (λ (y : Entry). y.in_flight) same)))
                (λ there. kept (
                  purge_at now a.entries i x
                    (subst (λ es. get_or es i none ≡ some x) before there)));
        }
  ]
  | inr (inl (x, e)) ↦ ground arith
  | inr (inr e) ↦ ground arith
]

same-Moves : (a b : Admission) → a ≡ b → Moves a b
same-Moves a b h = record {
  later = let k = ap (λ (x : Admission). x.generation) h in omega arith;
  origin = λ i e g. kept (subst (λ (x : Admission). Holds x i e) (sym h) g);
}

-- Whatever comes of it, each call moves the lane.
pub admit-Moves : (a : Admission) (r : Request) (now : ℕ) → Moves a (admit a r now).1
unfolding admit
admit-Moves a r now = elim (Bool-cases (ltb r.deadline now)) [
  | inl late ↦ same-Moves a (admit a r now).1 (ground arith)
  | inr early ↦
      let p : Admission = record a { entries = purge now a.entries } in
      elim (Outcome-cases (enter p r)) [
        | inl (s, e) ↦
            let same : s.1 ≡ (admit a r now).1 = ground arith in
            subst (λ b. Moves a b) same (enter-Moves a p s.1 now r s.0 refl e)
        | inr (inl (x, e)) ↦
            let same : p ≡ (admit a r now).1 = ground arith in
            subst (λ b. Moves a b) same (purged-Moves a now)
        | inr (inr e) ↦
            let same : p ≡ (admit a r now).1 = ground arith in
            subst (λ b. Moves a b) same (purged-Moves a now)
      ]
]

pub dispatch-Moves : (a : Admission) (now : ℕ) → Moves a (dispatch a now).1
unfolding dispatch
dispatch-Moves a now =
    elim (Option-cases
      (pick a.entries now (reads_of a.entries) (writes_of a.entries) a.cursor queue_capacity)) [
        | inl n ↦ same-Moves a (dispatch a now).1 (ground arith)
        | inr ((k, x), f) ↦
            let (place, good) =
              pick_cases a.entries now (reads_of a.entries) (writes_of a.entries) a.cursor
                queue_capacity k x f in
            let entries : set a.entries k (some (record x { in_flight = true }))
                ≡ (dispatch a now).1.entries =
              ground arith in
            let number : (dispatch a now).1.generation ≡ a.generation = ground arith in
            record {
              later = omega arith;
              origin = λ i e g.
                  set_cases (Origin a (dispatch a now).1 i e) a.entries k i
                    (record x { in_flight = true }) e
                    (subst (λ es. get_or es i none ≡ some e) (sym entries) g)
                    (λ here same.
                      launched now x
                        (subst (λ j. get_or a.entries j none ≡ some x) (sym here) place) (sym same)
                        good
                        (λ j apart.
                          ap (λ es. get_or es j none) (sym entries)
                          ∙ get_or-set_elsewhere a.entries k j
                              (some (record x { in_flight = true }))
                              (subst (λ n. j ≢ n) here apart)))
                    (λ there. kept there);
            }
      ]

pub complete-Moves : (a b : Admission) (t : Ticket) → complete a t ≡ ok b → Moves a b
unfolding complete
complete-Moves a b t h = elim (Option-cases (find a.entries t.index)) [
  | inl n ↦ ground arith
  | inr (x, f) ↦
      let entries : set a.entries t.index (some (record x { in_flight = false; completed = true }))
          ≡ b.entries =
        ground arith in
      let number : b.generation ≡ a.generation = ground arith in
      record {
        later = omega arith;
        origin = λ i e g.
            set_cases (Origin a b i e) a.entries t.index i
              (record x { in_flight = false; completed = true }) e
              (subst (λ es. get_or es i none ≡ some e) (sym entries) g)
              (λ here same.
                done x
                  (subst (λ j. get_or a.entries j none ≡ some x) (sym here)
                    (sym (find_is a.entries t.index) ∙ f))
                  (sym same))
              (λ there. kept there);
      }
]
