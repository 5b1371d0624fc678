-- ===== src/Admission/Lane.antt =====
-- engine/stockmesh/runtime/admission.rs: that a lane stays fair.
use xtxc.Common.{
  ℕ, zero, suc, ◌+◌, ◌-◌, ◌≡◌, refl, subst, ap, ◌∙◌, ◌≤◌, ◌<◌, ◌⊎◌, inl, inr, arith, true, false,
  not, ◌&&◌, Option, none, some, List, [], ◌∷◌, ltb, ◌==◌, if◌then◌else◌, get_elem?, get_or, set,
  ◌%◌, Option-cases, Bool-cases,
}
use xtxc.Common.Outcome.{ok, Outcome-cases}
use xtxc.Admission.{
  Request, Ticket, Entry, Admission, queue_capacity, purge, count_owned, first_free, enter, admit,
  pick, is_ready, find, complete,
}

-- Whether an entry has this owner and nonce, and whether it is an open one of this owner.
unfoldable pub has_id : ℕ → ℕ → Option Entry → ℕ
has_id o n none = 0
has_id o n (some e) = if e.request.owner == o && e.request.nonce == n then 1 else 0

unfoldable pub is_open : ℕ → Option Entry → ℕ
is_open o none = 0
is_open o (some e) = if e.request.owner == o && not e.completed then 1 else 0

unfoldable pub total : (Option Entry → ℕ) → List (Option Entry) → ℕ
total c [] = 0
total c (e ∷ es) = c e + total c es

-- No request is in the lane twice, and no owner has more than 32 open ones.
abbrev pub AreFair : List (Option Entry) → Type 0
AreFair es = ((o n : ℕ) → total (has_id o n) es ≤ 1) × ((o : ℕ) → total (is_open o) es ≤ 32)

abbrev pub IsFair : Admission → Type 0
IsFair a = AreFair a.entries

purge-total :
    (now : ℕ) (es : List (Option Entry)) (o n : ℕ)
    → (total (has_id o n) (purge now es) ≤ total (has_id o n) es)
      × (total (is_open o) (purge now es) ≤ total (is_open o) es)
unfolding purge total has_id is_open
purge-total now [] o n = ground arith
purge-total now (none ∷ es) o n = let k = purge-total now es o n in ground arith
purge-total now (some e ∷ es) o n = let k = purge-total now es o n in ground arith

some-inj : {x y : Option Entry} → some x ≡ some y → x ≡ y
some-inj h = cc

total-set :
    (c : Option Entry → ℕ) (es : List (Option Entry)) (k : ℕ) (x y : Option Entry)
    → get_elem? es k ≡ some x
    → total c (set es k y) + c x ≡ total c es + c y
unfolding total
total-set c [] k x y h = ground arith
total-set c (e ∷ es) zero x y h =
    subst (λ x. c y + total c es + c x ≡ c e + total c es + c y) (some-inj h) (omega arith)
total-set c (e ∷ es) (suc k) x y h = let rest = total-set c es k x y h in omega arith

count_owned-total :
    (r : Request) (es : List (Option Entry)) (k w : ℕ)
    → count_owned r es k ≡ ok w
    → (total (has_id r.owner r.nonce) es ≡ 0) × (w ≡ k + total (is_open r.owner) es)
unfolding count_owned total has_id is_open
count_owned-total r [] k w h = ground arith
count_owned-total r (none ∷ es) k w h = let rest = count_owned-total r es k w h in ground arith
count_owned-total r (some e ∷ es) k w h =
    let rest =
      count_owned-total r es (k + (if e.request.owner == r.owner && not e.completed then 1 else 0))
        w (ground arith) in
    ground arith

first_free_at :
    (i : ℕ) (es : List (Option Entry)) (j : ℕ)
    → first_free i es ≡ some j
    → (k : ℕ) × (j ≡ i + k) × (get_elem? es k ≡ some none)
unfolding first_free
first_free_at i [] j h = ground arith
first_free_at i (none ∷ es) j h = (0, ground arith, refl)
first_free_at i (some e ∷ es) j h =
    let (k, e1, e2) = first_free_at (suc i) es j h in (suc k, omega arith, e2)

find_at :
    (es : List (Option Entry)) (k : ℕ) (e : Entry)
    → find es k ≡ some e
    → get_elem? es k ≡ some (some e)
unfolding find
find_at [] k e h = ground arith
find_at (x ∷ es) zero e h = ap some h
find_at (x ∷ es) (suc k) e h = find_at es k e h

find-set :
    (es : List (Option Entry)) (k : ℕ) (x : Option Entry) (e : Entry)
    → find es k ≡ some e
    → find (set es k x) k ≡ x
unfolding find
find-set [] k x e h = ground arith
find-set (y ∷ es) zero x e h = refl
find-set (y ∷ es) (suc k) x e h = find-set es k x e h

purge-IsFair :
    (now : ℕ) (a : Admission) → IsFair a → IsFair (record a { entries = purge now a.entries })
purge-IsFair now a (u, w) = (
  λ o n. let k = purge-total now a.entries o n in let v = u o n in omega arith,
  λ o. let k = purge-total now a.entries o 0 in let v = w o in omega arith,
)

enter-IsFair :
    (a : Admission) (r : Request) (t : Ticket) (a' : Admission)
    → IsFair a
    → enter a r ≡ ok (t, a')
    → IsFair a'
unfolding enter has_id is_open
enter-IsFair a r t a' (u, w) h = elim (Outcome-cases (count_owned r a.entries 0)) [
  | inl (owned, e) ↦ elim (Option-cases (first_free 0 a.entries)) [
    | inl n ↦ ground arith
    | inr (j, f) ↦
        let (none_yet, sum) = count_owned-total r a.entries 0 owned e in
        let (k, same, free) = first_free_at 0 a.entries j f in
        let new_entry : Option Entry = some (record {
          request = r;
          generation = a.generation + 1;
          in_flight = false;
          completed = false;
        }) in
        let entries : a'.entries ≡ set a.entries k new_entry = ground (arith, same) in
        let few : owned < 32 = ground arith in
        (
          λ o n.
              let v = u o n in
              let s = total-set (has_id o n) a.entries k none new_entry free in
              let moved : total (has_id o n) a'.entries
                  ≡ total (has_id o n) (set a.entries k new_entry) =
                ap (λ es. total (has_id o n) es) entries in
              elim (Bool-cases (r.owner == o && r.nonce == n)) [
                | inl hit ↦
                    let o_same : r.owner ≡ o = ground arith in
                    let n_same : r.nonce ≡ n = ground arith in
                    let zero_yet : total (has_id o n) a.entries ≡ 0 =
                      subst (λ o. total (has_id o n) a.entries ≡ 0) o_same
                        (subst (λ n. total (has_id r.owner n) a.entries ≡ 0) n_same none_yet) in
                    ground arith
                | inr miss ↦ ground arith
              ],
          λ o.
              let v = w o in
              let s = total-set (is_open o) a.entries k none new_entry free in
              let moved : total (is_open o) a'.entries
                  ≡ total (is_open o) (set a.entries k new_entry) =
                ap (λ es. total (is_open o) es) entries in
              elim (Bool-cases (r.owner == o)) [
                | inl hit ↦
                    let o_same : r.owner ≡ o = ground arith in
                    let less : total (is_open o) a.entries < 32 =
                      subst (λ o. total (is_open o) a.entries < 32) o_same
                        (omega (arith, sum, few)) in
                    ground arith
                | inr miss ↦ ground arith
              ],
        )
  ]
  | inr (inl (x, e)) ↦ ground arith
  | inr (inr e) ↦ ground arith
]

-- If in a lane no owner and nonce is twice and no owner has more than 32 open requests, then so it is
-- after a call that admits a request, whatever comes of it.
pub admit-IsFair : (a : Admission) (r : Request) (now : ℕ) → IsFair a → IsFair (admit a r now).1
unfolding admit
admit-IsFair a r now v = elim (Bool-cases (ltb r.deadline now)) [
  | inl late ↦
      let same : a.entries ≡ (admit a r now).1.entries = ground arith in subst AreFair same v
  | inr early ↦ elim (Outcome-cases (enter (record a { entries = purge now a.entries }) r)) [
    | inl (s, e) ↦
        let same : s.1.entries ≡ (admit a r now).1.entries = ground arith in
        subst AreFair same (
          enter-IsFair (record a { entries = purge now a.entries }) r s.0 s.1 (purge-IsFair now a v)
            e)
    | inr (inl (x, e)) ↦
        let same : purge now a.entries ≡ (admit a r now).1.entries = ground arith in
        subst AreFair same (purge-IsFair now a v)
    | inr (inr e) ↦
        let same : purge now a.entries ≡ (admit a r now).1.entries = ground arith in
        subst AreFair same (purge-IsFair now a v)
  ]
]

-- A new entry that counts no more keeps the lane fair.
pub replace-AreFair :
    (es : List (Option Entry)) (k : ℕ) (e e' : Entry)
    → get_elem? es k ≡ some (some e)
    → e'.request ≡ e.request
    → ((e'.completed ≡ e.completed) ⊎ (e'.completed ≡ true))
    → AreFair es
    → AreFair (set es k (some e'))
unfolding has_id is_open
replace-AreFair es k e e' h same done v = (
  λ o n.
      let was = v.0 o n in let s = total-set (has_id o n) es k (some e) (some e') h in ground arith,
  λ o. let was = v.1 o in let s = total-set (is_open o) es k (some e) (some e') h in ground arith,
)

-- A lane stays fair when a request completes.
pub complete-IsFair :
    (a : Admission) (t : Ticket) (a' : Admission) → complete a t ≡ ok a' → IsFair a → IsFair a'
unfolding complete
complete-IsFair a t a' h v = elim (Option-cases (find a.entries t.index)) [
  | inl n ↦ ground arith
  | inr (e, f) ↦
      let done : Entry = record e { in_flight = false; completed = true } in
      let same : set a.entries t.index (some done) ≡ a'.entries = ground arith in
      subst AreFair same
        (replace-AreFair a.entries t.index e done (find_at a.entries t.index e f) refl (inr refl) v)
]

pub pick_cases :
    (es : List (Option Entry)) (now reads writes cursor count i : ℕ) (e : Entry)
    → pick es now reads writes cursor count ≡ some (i, e)
    → (get_or es i none ≡ some e) × (is_ready now reads writes e ≡ true)
unfolding pick
pick_cases es now reads writes cursor zero i e h = ground arith
pick_cases es now reads writes cursor (suc count) i e h =
    let at = (cursor + (queue_capacity - suc count)) % queue_capacity in
    elim (Option-cases (get_or es at none)) [
      | inl n ↦ pick_cases es now reads writes cursor count i e (ground arith)
      | inr (x, f) ↦ elim (Bool-cases (is_ready now reads writes x)) [
        | inl good ↦
            let pair : (at ≡ i) × (x ≡ e) = ground arith in
            (
              subst (λ j. get_or es j none ≡ some e) pair.0 (f ∙ ap some pair.1),
              subst (λ y. is_ready now reads writes y ≡ true) pair.1 good,
            )
        | inr bad ↦ pick_cases es now reads writes cursor count i e (ground arith)
      ]
    ]

pub get_or_at :
    (es : List (Option Entry)) (i : ℕ) (e : Entry)
    → get_or es i none ≡ some e
    → get_elem? es i ≡ some (some e)
get_or_at [] i e h = ground arith
get_or_at (x ∷ es) zero e h = ap some h
get_or_at (x ∷ es) (suc i) e h = get_or_at es i e h
