-- ===== src/Admission.antt =====
-- engine/stockmesh/runtime/admission.rs: the bounded admission lane.
pub mod Lane
pub mod Moves
pub mod Once
pub mod Apart
use xtxc.Common.{
  ℕ, zero, suc, ◌+◌, ◌-◌, ◌%◌, bit_and, bit_or, Bool, true, false, not, ◌&&◌, ◌||◌, Option, none,
  some, List, [], ◌∷◌, ltb, leb, ◌==◌, ◌!=◌, if◌then◌else◌, replicate, get_elem?, get_or, set,
}
use xtxc.Common.Outcome.{
  Error, Outcome, ok, err, expired, duplicate, owner_limit, queue_full, arithmetic, invalid_ticket,
  u64_mod, ◌>>=◌, ◌>>◌, reject, ok_or, checked_add,
}

abbrev pub queue_capacity : ℕ
queue_capacity = 256

abbrev pub owner_capacity : ℕ
owner_capacity = 32

pub record Request : Type 0 where
  pub owner : ℕ
  pub nonce : ℕ
  pub read_resources : ℕ
  pub write_resources : ℕ
  pub deadline : ℕ

pub record Ticket : Type 0 where
  pub index : ℕ
  pub generation : ℕ

pub record Entry : Type 0 where
  pub request : Request
  pub generation : ℕ
  pub in_flight : Bool
  pub completed : Bool

pub record Admission : Type 0 where
  pub entries : List (Option Entry)
  pub generation : ℕ
  pub cursor : ℕ

-- `Admission::default`
abbrev pub new_admission : Admission
new_admission = record { entries = replicate queue_capacity none; generation = 0; cursor = 0 }

abbrev pub is_dead : ℕ → Entry → Bool
is_dead now e = not e.in_flight && ltb e.request.deadline now

unfoldable pub purge : ℕ → List (Option Entry) → List (Option Entry)
purge now [] = []
purge now (none ∷ es) = none ∷ purge now es
purge now (some e ∷ es) = (if is_dead now e then none else some e) ∷ purge now es

-- The loop that counts the owner's open requests.
unfoldable pub count_owned : Request → List (Option Entry) → ℕ → Outcome ℕ
count_owned r [] owned = ok owned
count_owned r (none ∷ es) owned = count_owned r es owned
count_owned r (some e ∷ es) owned = do
  reject (e.request.owner == r.owner && e.request.nonce == r.nonce) duplicate
  count_owned r es (owned + (if e.request.owner == r.owner && not e.completed then 1 else 0))

-- `position(Option::is_none)`, counted from `i`.
unfoldable pub first_free : ℕ → List (Option Entry) → Option ℕ
first_free i [] = none
first_free i (none ∷ es) = some i
first_free i (some e ∷ es) = first_free (suc i) es

-- `admit`: the expired entries go even when the request is then refused.
unfoldable pub enter : Admission → Request → Outcome (Ticket × Admission)
enter a r = do
  owned ← count_owned r a.entries 0
  reject (leb owner_capacity owned) owner_limit
  i ← ok_or (first_free 0 a.entries) queue_full
  g ← checked_add u64_mod a.generation 1 arithmetic
  ok (
    record { index = i; generation = g },
    record {
      entries =
          set a.entries i
            (some (record { request = r; generation = g; in_flight = false; completed = false }));
      generation = g;
      cursor = a.cursor;
    },
  )

abbrev pub settle_admit : Admission → Outcome (Ticket × Admission) → Outcome Ticket × Admission
settle_admit a (ok s) = (ok s.0, s.1)
settle_admit a (err e) = (err e, a)
settle_admit a Outcome.panic = (Outcome.panic, a)

unfoldable pub admit : Admission → Request → ℕ → Outcome Ticket × Admission
admit a r now = elim (ltb r.deadline now) [
  | true ↦ (err expired, a)
  | false ↦
      let purged : Admission = record a { entries = purge now a.entries } in
      settle_admit purged (enter purged r)
]

-- The resources that the requests in flight read, and those that they write.
unfoldable pub reads_of : List (Option Entry) → ℕ
reads_of [] = 0
reads_of (none ∷ es) = reads_of es
reads_of (some e ∷ es) =
    if e.in_flight then bit_or e.request.read_resources (reads_of es) else reads_of es

unfoldable pub writes_of : List (Option Entry) → ℕ
writes_of [] = 0
writes_of (none ∷ es) = writes_of es
writes_of (some e ∷ es) =
    if e.in_flight then bit_or e.request.write_resources (writes_of es) else writes_of es

abbrev pub is_ready : ℕ → ℕ → ℕ → Entry → Bool
is_ready now reads writes e =
    not (e.in_flight || e.completed || ltb e.request.deadline now)
    && bit_and e.request.write_resources (bit_or reads writes) == 0
    && bit_and e.request.read_resources writes == 0

-- The loop from the cursor on, over the last `count` offsets.
unfoldable pub pick : List (Option Entry) → ℕ → ℕ → ℕ → ℕ → ℕ → Option (ℕ × Entry)
pick es now reads writes cursor zero = none
pick es now reads writes cursor (suc count) =
    let i = (cursor + (queue_capacity - suc count)) % queue_capacity in
    elim (get_or es i none) [
      | none ↦ pick es now reads writes cursor count
      | some e ↦ elim (is_ready now reads writes e) [
        | true ↦ some (i, e)
        | false ↦ pick es now reads writes cursor count
      ]
    ]

abbrev pub launch : Admission → Option (ℕ × Entry) → Option (Ticket × Request) × Admission
launch a none = (none, a)
launch a (some (i, e)) = (
  some (record { index = i; generation = e.generation }, e.request),
  record a {
    entries = set a.entries i (some (record e { in_flight = true }));
    cursor = (i + 1) % queue_capacity;
  },
)

unfoldable pub dispatch : Admission → ℕ → Option (Ticket × Request) × Admission
dispatch a now =
    launch a (pick a.entries now (reads_of a.entries) (writes_of a.entries) a.cursor queue_capacity)

unfoldable pub find : List (Option Entry) → ℕ → Option Entry
find [] i = none
find (e ∷ es) zero = e
find (e ∷ es) (suc i) = find es i

unfoldable pub complete : Admission → Ticket → Outcome Admission
complete a t = do
  e ← ok_or (find a.entries t.index) invalid_ticket
  reject (not (e.generation == t.generation) || not e.in_flight || e.completed) invalid_ticket
  ok (record a {
    entries = set a.entries t.index (some (record e { in_flight = false; completed = true }));
  })
