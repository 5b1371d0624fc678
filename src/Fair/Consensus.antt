-- ===== src/Fair/Consensus.antt =====
-- engine/stockmesh/fair/mod.rs: the band of a successful consensus is exactly the set of prices
-- that a quorum of the groups accepts.
use xtxc.Common.{
  ℕ, suc, ◌-◌, ◌*◌, ◌≤◌, ◌<◌, ◌≡◌, refl, sym, ap, subst, ◌⊎◌, inl, inr, ◌↔◌, arith, false, none,
  some, List, [], ◌∷◌, leb, All, length, Bool-cases, Option-cases, ◌&&◌,
}
use xtxc.Common.Outcome.{ok, >>=-eq-ok, Outcome-cases}
use xtxc.Fair.{
  Interval, Band, Scan, count_if, covering, through, points, sort, insert_sorted, visit, bridge,
  scan, consensus,
}

-- Order.
abbrev Rises : List ℕ → Type 0
Rises [] = Unit
Rises (a ∷ []) = Unit
Rises (a ∷ b ∷ bs) = (a ≤ b) × Rises (b ∷ bs)

insert_sorted-Rises : (a : ℕ) (bs : List ℕ) → Rises bs → Rises (insert_sorted a bs)
unfolding insert_sorted
insert_sorted-Rises a [] r = tt
insert_sorted-Rises a (b ∷ []) r = ground arith
insert_sorted-Rises a (b ∷ c ∷ cs) r = let rest = insert_sorted-Rises a (c ∷ cs) r.1 in ground arith

sort-Rises : (as' : List ℕ) → Rises (sort as')
unfolding sort
sort-Rises [] = tt
sort-Rises (a ∷ as') = insert_sorted-Rises a (sort as') (sort-Rises as')

-- Sorting keeps every element.
module _ (P : ℕ → Type 0) where
  insert_sorted-All : (a : ℕ) (bs : List ℕ) → All P (insert_sorted a bs) → P a × All P bs
  unfolding insert_sorted
  insert_sorted-All a [] h = (h.0, tt)
  insert_sorted-All a (b ∷ bs) h = elim (Bool-cases (leb a b)) [
    | inl before ↦
        let k : All P (a ∷ b ∷ bs) = subst (λ xs. All P xs) {y = a ∷ b ∷ bs} (ground arith) h in
        (k.0, (k.1.0, k.1.1))
    | inr after ↦
        let k : All P (b ∷ insert_sorted a bs) =
          subst (λ xs. All P xs) {y = b ∷ insert_sorted a bs} (ground arith) h in
        let (p, rest) = insert_sorted-All a bs k.1 in (p, (k.0, rest))
  ]

  sort-All : (as' : List ℕ) → All P (sort as') → All P as'
  unfolding sort
  sort-All [] h = tt
  sort-All (a ∷ as') h = let (p, rest) = insert_sorted-All a (sort as') h in (p, sort-All as' rest)

through_le :
    (ys : List Interval) (p q right : ℕ) → p ≤ q → q ≤ right → through ys p right ≤ covering ys q
unfolding through covering count_if
through_le [] p q right h k = ground arith
through_le (y ∷ ys) p q right h k = let rest = through_le ys p q right h k in ground arith

-- A scan, seen from one price `q`.
module _ (xs : List Interval) (quorum q : ℕ) where
  -- The prices found lie up to `bound`, and all from the first to the last are accepted; while the
  -- band has not ended, so are all below `next`.
  abbrev Held : Scan → ℕ → ℕ → Type 0
  Held s bound next =
      (l : ℕ)
      → s.first ≡ some l
      → (l ≤ s.last)
        × (s.last ≤ bound)
        × (l ≤ q → q ≤ s.last → quorum ≤ covering xs q)
        × (s.ended ≡ false → l ≤ q → q < next → quorum ≤ covering xs q)

  -- If `q` is accepted, it is one of the prices found.
  abbrev Seen : Scan → Type 0
  Seen s = quorum ≤ covering xs q → (l : ℕ) × (s.first ≡ some l) × (l ≤ q) × (q ≤ s.last)

  at_point : (p : ℕ) → p ≡ q → covering xs p ≡ covering xs q
  at_point p e = ap (λ x. covering xs x) e

  visit_first :
      (p : ℕ) (s s' : Scan) (l : ℕ)
      → visit xs quorum p s ≡ ok s'
      → s'.first ≡ some l
      → (s.first ≡ some l) ⊎ ((s.first ≡ none) × (l ≡ p) × (s'.last ≡ p) × (quorum ≤ covering xs p))
  unfolding visit
  visit_first p s s' l h e = ground arith

  visit-Held : (p : ℕ) (s s' : Scan) → Held s p p → visit xs quorum p s ≡ ok s' → Held s' p (suc p)
  unfolding visit
  visit-Held p s s' c h l e = elim (visit_first p s s' l h e) [
    | inl old ↦ let (a, b, d, f) = c l old in ground (arith, at_point p)
    | inr new ↦ ground (arith, at_point p)
  ]

  bridge-Held :
      (p right : ℕ) (s : Scan)
      → p ≤ right
      → Held s p (suc p)
      → Held (bridge xs quorum p right s) right right
  unfolding bridge
  bridge-Held p right s h c l e =
      let (a, b, d, f) = c l e in ground (arith, through_le xs p q right)

  scan-Held :
      (p : ℕ) (ps : List ℕ) (s s' : Scan)
      → Rises (p ∷ ps)
      → Held s p p
      → scan xs quorum (p ∷ ps) s ≡ ok s'
      → (l : ℕ) → s'.first ≡ some l
      → (l ≤ s'.last) × (l ≤ q → q ≤ s'.last → quorum ≤ covering xs q)
  unfolding scan
  scan-Held p [] s s' r c h l e = let (a, b, d, f) = visit-Held p s s' c h l e in (a, d)
  scan-Held p (right ∷ ps) s s' r c h l e =
      let (t, k, rest) = >>=-eq-ok (visit xs quorum p s) _ h in
      scan-Held right ps (bridge xs quorum p right t) s' r.1
        (bridge-Held p right t r.0 (visit-Held p s t c k)) rest l e

  Held-order :
      (p : ℕ) (s : Scan) → Held s p p → (l : ℕ) → s.first ≡ some l → (l ≤ s.last) × (s.last ≤ p)
  Held-order p s c l e = let (a, b, d, f) = c l e in (a, b)

  visit_keeps : (p : ℕ) (s s' : Scan) → Held s p p → visit xs quorum p s ≡ ok s' → Seen s → Seen s'
  unfolding visit
  visit_keeps p s s' c h v k =
      let (l, e, low, high) = v k in
      let order = Held-order p s c l e in (l, ground arith, low, ground arith)

  scan_keeps :
      (p : ℕ) (ps : List ℕ) (s s' : Scan)
      → Rises (p ∷ ps)
      → Held s p p
      → scan xs quorum (p ∷ ps) s ≡ ok s'
      → Seen s
      → Seen s'
  unfolding scan bridge
  scan_keeps p [] s s' r c h v = visit_keeps p s s' c h v
  scan_keeps p (right ∷ ps) s s' r c h v =
      let (t, k, rest) = >>=-eq-ok (visit xs quorum p s) _ h in
      scan_keeps right ps (bridge xs quorum p right t) s' r.1
        (bridge-Held p right t r.0 (visit-Held p s t c k)) rest (visit_keeps p s t c k v)

visit-Seen :
    (xs : List Interval) (quorum p : ℕ) (s s' : Scan)
    → Held xs quorum p s p p
    → visit xs quorum p s ≡ ok s'
    → Seen xs quorum p s'
unfolding visit
visit-Seen xs quorum p s s' c h k = elim (Option-cases s.first) [
  | inl e ↦ (p, ground arith, ground arith, ground arith)
  | inr (l, e) ↦
      let order = Held-order xs quorum p p s c l e in (l, ground arith, ground arith, ground arith)
]

scan-Seen :
    (xs : List Interval) (quorum p : ℕ) (ps : List ℕ) (s s' : Scan)
    → Rises (p ∷ ps)
    → ((q : ℕ) → Held xs quorum q s p p)
    → scan xs quorum (p ∷ ps) s ≡ ok s'
    → All (λ q. Seen xs quorum q s') (p ∷ ps)
unfolding scan bridge
scan-Seen xs quorum p [] s s' r c h = (visit-Seen xs quorum p s s' (c p) h, tt)
scan-Seen xs quorum p (right ∷ ps) s s' r c h =
    let (t, k, rest) = >>=-eq-ok (visit xs quorum p s) _ h in
    let next = bridge xs quorum p right t in
    let held : (q : ℕ) → Held xs quorum q next right right =
      λ q. bridge-Held xs quorum q p right t r.0 (visit-Held xs quorum q p s t (c q) k) in
    (
      scan_keeps xs quorum p right ps next s' r.1 (held p) rest
          (visit-Seen xs quorum p s t (c p) k),
      scan-Seen xs quorum right ps next s' r.1 held rest,
    )

-- Around an accepted price: the greatest `low` and the least `high` of the intervals that hold it.
module _ (P : ℕ → Type 0) (q : ℕ) where
  floor_of :
      (xs : List Interval)
      → All P (points xs)
      → (covering xs q ≡ 0)
        ⊎ ((m : ℕ) × P m × (m ≤ q) × ((r : ℕ) → m ≤ r → r ≤ q → covering xs q ≤ covering xs r))
  unfolding covering count_if points
  floor_of [] h = inl refl
  floor_of (x ∷ xs) h = elim (floor_of xs h.1.1) [
    | inl zero' ↦ elim (Bool-cases (leb x.low q && leb q x.high)) [
      | inl inside ↦ inr (x.low, h.0, ground arith, λ r a b. ground arith)
      | inr outside ↦ inl (ground arith)
    ]
    | inr (m, p, low, rest) ↦ elim (Bool-cases (leb x.low q && leb q x.high && leb m x.low)) [
      | inl inside ↦
          inr (x.low, h.0, ground arith, λ r a b. let k = rest r (ground arith) b in ground arith)
      | inr outside ↦ inr (m, p, low, λ r a b. let k = rest r a b in ground arith)
    ]
  ]

  roof_of :
      (xs : List Interval)
      → All P (points xs)
      → (covering xs q ≡ 0)
        ⊎ ((m : ℕ) × P m × (q ≤ m) × ((r : ℕ) → q ≤ r → r ≤ m → covering xs q ≤ covering xs r))
  unfolding covering count_if points
  roof_of [] h = inl refl
  roof_of (x ∷ xs) h = elim (roof_of xs h.1.1) [
    | inl zero' ↦ elim (Bool-cases (leb x.low q && leb q x.high)) [
      | inl inside ↦ inr (x.high, h.1.0, ground arith, λ r a b. ground arith)
      | inr outside ↦ inl (ground arith)
    ]
    | inr (m, p, high, rest) ↦ elim (Bool-cases (leb x.low q && leb q x.high && leb x.high m)) [
      | inl inside ↦
          inr
            (x.high, h.1.0, ground arith, λ r a b. let k = rest r a (ground arith) in ground arith)
      | inr outside ↦ inr (m, p, high, λ r a b. let k = rest r a b in ground arith)
    ]
  ]

abbrev start : Scan
start = record { first = none; last = 0; ended = false }

List-cases : (ps : List ℕ) → (ps ≡ []) ⊎ ((a : ℕ) × (as' : List ℕ) × (ps ≡ a ∷ as'))
List-cases [] = inl refl
List-cases (a ∷ as') = inr (a, as', refl)

-- The outcome of the scan of all the points in order.
scan_exact :
    (xs : List Interval) (quorum : ℕ) (s : Scan) (low : ℕ)
    → 0 < quorum
    → scan xs quorum (sort (points xs)) start ≡ ok s
    → s.first ≡ some low
    → (p : ℕ) → (low ≤ p × p ≤ s.last) ↔ (quorum ≤ covering xs p)
unfolding scan
scan_exact xs quorum s low h k e p = elim (List-cases (sort (points xs))) [
  | inl n ↦
      let k' : scan xs quorum [] start ≡ ok s = subst (λ ps. scan xs quorum ps start ≡ ok s) n k in
      ground arith
  | inr (a, as', n) ↦
      let k' : scan xs quorum (a ∷ as') start ≡ ok s =
        subst (λ ps. scan xs quorum ps start ≡ ok s) n k in
      let rises : Rises (a ∷ as') = subst (λ ps. Rises ps) n (sort-Rises (points xs)) in
      let held : (q : ℕ) → Held xs quorum q start a a = λ q l f. ground arith in
      let seen : All (λ q. Seen xs quorum q s) (points xs) =
        sort-All (λ q. Seen xs quorum q s) (points xs)
          (subst (λ ps. All (λ q. Seen xs quorum q s) ps) (sym n)
            (scan-Seen xs quorum a as' start s rises held k')) in
      let (_, sound) = scan-Held xs quorum p a as' start s rises (held p) k' low e in
      let low_end : quorum ≤ covering xs p → low ≤ p = λ c.
        elim (floor_of (λ q. Seen xs quorum q s) p xs seen) [
          | inl z ↦ ground arith
          | inr (m, see, below, rest) ↦
              let all = rest m (ground arith) below in
              let (l, f, first, last) = see (ground arith) in ground arith
        ] in
      let high_end : quorum ≤ covering xs p → p ≤ s.last = λ c.
        elim (roof_of (λ q. Seen xs quorum q s) p xs seen) [
          | inl z ↦ ground arith
          | inr (m, see, above, rest) ↦
              let all = rest m above (ground arith) in
              let (l, f, first, last) = see (ground arith) in ground arith
        ] in
      (λ r. sound r.0 r.1, λ c. (low_end c, high_end c))
]

consensus_cases :
    (xs : List Interval) (faults max_width_bps : ℕ) (b : Band)
    → consensus xs faults max_width_bps ≡ ok b
    → (s : Scan) × (scan xs b.quorum (sort (points xs)) start ≡ ok s)
      × (s.first ≡ some b.low)
      × (s.last ≡ b.high)
      × (b.quorum ≡ length xs - faults)
      × (2 * faults < length xs)
      × ((b.high - b.low) * 10_000 ≤ b.low * max_width_bps)
unfolding consensus
consensus_cases xs faults max_width_bps b h =
    elim (Outcome-cases (scan xs (length xs - faults) (sort (points xs)) start)) [
      | inl (s, e) ↦ elim (Option-cases s.first) [
        | inl n ↦ ground arith
        | inr (low, f) ↦
            (s, ground arith, ground arith, ground arith, ground arith, ground arith, ground arith)
      ]
      | inr (inl (x, e)) ↦ ground arith
      | inr (inr e) ↦ ground arith
    ]

-- The band of a successful consensus holds exactly the prices that a quorum of the groups accepts.
pub consensus_exact :
    (xs : List Interval) (faults max_width_bps : ℕ) (b : Band)
    → consensus xs faults max_width_bps ≡ ok b
    → (p : ℕ) → (b.low ≤ p × p ≤ b.high) ↔ (b.quorum ≤ covering xs p)
unfolding consensus
consensus_exact xs faults max_width_bps b h p =
    let (s, scanned, first, last, quorum, most, width) =
      consensus_cases xs faults max_width_bps b h in
    let exact = scan_exact xs b.quorum s b.low (omega arith) scanned first p in
    subst (λ top. (b.low ≤ p × p ≤ top) ↔ (b.quorum ≤ covering xs p)) last exact
