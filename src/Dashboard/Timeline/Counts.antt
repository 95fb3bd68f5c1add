-- ===== src/Dashboard/Timeline/Counts.antt =====
-- The timeline of frontend/src/App.jsx counts each alert once, at its hour.
use multi_tenant_siem.Base.{
  ℕ, ◌+◌, String, ◌≡◌, refl, inl, inr, Bool, true, false, ◌&&◌, ◌||◌, Option, List, [], ◌∷◌, arith,
  str_eq, eq_iff, eq_refl, if◌then◌else◌, Bool-cases, any, All, map,
}
use multi_tenant_siem.Js.{Value}
use multi_tenant_siem.Dashboard.Timeline.{
  Tally, bump, is_counted, label_of, analytics_map, Hour, insert_key, sort_keys, keys, count_at,
  analytics_data, text_le,
}

-- 1 for true.
abbrev pub one_if : Bool → ℕ
one_if true = 1
one_if false = 0

abbrev pub sum : List ℕ → ℕ
sum [] = 0
sum (n ∷ ns) = n + sum ns

abbrev pub counts : List Hour → List ℕ
counts [] = []
counts (r ∷ rest) = r.alerts ∷ counts rest

abbrev total : Tally → ℕ
total [] = 0
total ((h, n) ∷ rest) = n + total rest

count_at-bump :
    (k h : String) (t : Tally) → count_at k (bump h t) ≡ count_at k t + one_if (str_eq h k)
unfolding count_at bump
count_at-bump k h [] = ground arith
count_at-bump k h ((j, n) ∷ t) =
    ground (arith, count_at-bump k h t, eq_iff j h, eq_iff j k, eq_iff h k)

total-bump : (h : String) (t : Tally) → total (bump h t) ≡ total t + 1
unfolding bump
total-bump h [] = refl
total-bump h ((j, n) ∷ t) = ground (arith, total-bump h t)

-- No key stands twice.
abbrev pub NoRepeat : List String → Type 0
NoRepeat [] = Unit
NoRepeat (k ∷ ks) = (any (str_eq k) ks ≡ false) × NoRepeat ks

any-keys-bump :
    (k h : String) (t : Tally)
    → any (str_eq k) (keys (bump h t)) ≡ (str_eq k h || any (str_eq k) (keys t))
unfolding bump
any-keys-bump k h [] = refl
any-keys-bump k h ((j, n) ∷ t) =
    ground (arith, any-keys-bump k h t, eq_iff j h, eq_iff k h, eq_iff k j)

NoRepeat-bump : (h : String) (t : Tally) → NoRepeat (keys t) → NoRepeat (keys (bump h t))
unfolding bump
NoRepeat-bump h [] q = (refl, tt)
NoRepeat-bump h ((j, n) ∷ t) (fresh, q) = elim (Bool-cases (str_eq j h)) [
  | inl same ↦ rw (same, bump) (fresh, q)
  | inr other ↦ rw (other, bump) (rw (any-keys-bump, other, fresh), NoRepeat-bump h t q)
]

-- One round of the `forEach`.
count_at-round :
    (b : Bool) (k h : String) (t : Tally)
    → count_at k (if b then bump h t else t) ≡ count_at k t + one_if (b && str_eq h k)
count_at-round true k h t = count_at-bump k h t
count_at-round false k h t = omega arith

total-round :
    (b : Bool) (h : String) (t : Tally) → total (if b then bump h t else t) ≡ total t + one_if b
total-round true h t = total-bump h t
total-round false h t = omega arith

NoRepeat-round :
    (b : Bool) (h : String) (t : Tally)
    → NoRepeat (keys t)
    → NoRepeat (keys (if b then bump h t else t))
NoRepeat-round true h t q = NoRepeat-bump h t q
NoRepeat-round false h t q = q

module _ (hour_of : Value → Option ℕ) where
  -- The alerts of the list that have a time, in that hour.
  pub hits : String → List Value → ℕ
  hits hour [] = 0
  hits hour (alert ∷ rest) =
      one_if (is_counted alert && str_eq (label_of hour_of alert) hour) + hits hour rest

  -- The alerts of the list that have a time.
  pub counted : List Value → ℕ
  counted [] = 0
  counted (alert ∷ rest) = one_if (is_counted alert) + counted rest

  count_at-analytics_map :
      (k : String) (alerts : List Value) (t : Tally)
      → count_at k (analytics_map hour_of alerts t) ≡ count_at k t + hits k alerts
  unfolding analytics_map hits
  count_at-analytics_map k [] t = omega arith
  count_at-analytics_map k (a ∷ rest) t =
      let h = label_of hour_of a in
      omega (
        arith,
        count_at-analytics_map k rest (if is_counted a then bump h t else t),
        count_at-round (is_counted a) k h t,
      )

  total-analytics_map :
      (alerts : List Value) (t : Tally)
      → total (analytics_map hour_of alerts t) ≡ total t + counted alerts
  unfolding analytics_map counted
  total-analytics_map [] t = omega arith
  total-analytics_map (a ∷ rest) t =
      let h = label_of hour_of a in
      omega (
        arith,
        total-analytics_map rest (if is_counted a then bump h t else t),
        total-round (is_counted a) h t,
      )

  pub NoRepeat-analytics_map :
      (alerts : List Value) (t : Tally)
      → NoRepeat (keys t)
      → NoRepeat (keys (analytics_map hour_of alerts t))
  unfolding analytics_map
  NoRepeat-analytics_map [] t q = q
  NoRepeat-analytics_map (a ∷ rest) t q =
      NoRepeat-analytics_map rest _ (NoRepeat-round (is_counted a) (label_of hour_of a) t q)

-- The rows that are made of a list of keys.
abbrev row_of : Tally → String → Hour
row_of t hour = record { time = hour; alerts = count_at hour t }

abbrev rows : Tally → List String → List Hour
rows t ks = map (row_of t) ks

abbrev sum_at : Tally → List String → ℕ
sum_at t ks = sum (counts (rows t ks))

sum_at-cons_other :
    (h : String) (n : ℕ) (t : Tally) (ks : List String)
    → any (str_eq h) ks ≡ false
    → sum_at ((h, n) ∷ t) ks ≡ sum_at t ks
unfolding count_at
sum_at-cons_other h n t [] fresh = refl
sum_at-cons_other h n t (k ∷ ks) fresh = ground (arith, sum_at-cons_other h n t ks)

sum_at-keys : (t : Tally) → NoRepeat (keys t) → sum_at t (keys t) ≡ total t
unfolding count_at
sum_at-keys [] q = refl
sum_at-keys ((h, n) ∷ t) (fresh, q) =
    rw eq_refl (omega (arith, sum_at-keys t q, sum_at-cons_other h n t (keys t) fresh))

sum_at-insert_key :
    (t : Tally) (k : String) (ks : List String)
    → sum_at t (insert_key k ks) ≡ count_at k t + sum_at t ks
unfolding insert_key
sum_at-insert_key t k [] = refl
sum_at-insert_key t k (j ∷ ks) = elim (Bool-cases (text_le k j)) [
  | inl first ↦ rw (first, insert_key) refl
  | inr later ↦ rw (later, insert_key) (omega (arith, sum_at-insert_key t k ks))
]

sum_at-sort_keys : (t : Tally) (ks : List String) → sum_at t (sort_keys ks) ≡ sum_at t ks
unfolding sort_keys
sum_at-sort_keys t [] = refl
sum_at-sort_keys t (k ∷ ks) =
    omega (arith, sum_at-insert_key t k (sort_keys ks), sum_at-sort_keys t ks)

rows-All :
    (hour_of : Value → Option ℕ) (alerts : List Value) (t : Tally) (ks : List String)
    → ((k : String) → count_at k t ≡ hits hour_of k alerts)
    → All (λ r. r.alerts ≡ hits hour_of r.time alerts) (rows t ks)
rows-All hour_of alerts t [] h = tt
rows-All hour_of alerts t (k ∷ ks) h = (h k, rows-All hour_of alerts t ks h)

-- Each row of the timeline has the number of alerts in its hour, and the rows together have every
-- alert with a time exactly once.
pub analytics_data-counts :
    (hour_of : Value → Option ℕ) (alerts : List Value)
    → All (λ r. r.alerts ≡ hits hour_of r.time alerts) (analytics_data hour_of alerts)
      × (sum (counts (analytics_data hour_of alerts)) ≡ counted hour_of alerts)
unfolding analytics_data count_at
analytics_data-counts hour_of alerts =
    let t = analytics_map hour_of alerts [] in
    (
      rows-All hour_of alerts t (sort_keys (keys t))
          (λ k. omega (arith, count_at-analytics_map hour_of k alerts [])),
      omega (
        arith,
        sum_at-sort_keys t (keys t),
        sum_at-keys t (NoRepeat-analytics_map hour_of alerts [] tt),
        total-analytics_map hour_of alerts [],
      ),
    )
