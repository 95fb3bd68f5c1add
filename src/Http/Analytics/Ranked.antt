-- ===== src/Http/Analytics/Ranked.antt =====
-- The ten addresses with the most alerts (`GetAttackers` of
-- ingestion-service/internal/repository/analytics_repository.go).
use mathlib.Core.Path.{subst, sym}
use mathlib.Core.List.{Memᴰ}
use multi_tenant_siem.Base.{
  ℕ, ◌*◌, ◌≤◌, String, ◌≡◌, refl, ap, ◌∙◌, Option, some, List, [], ◌∷◌, map, arith, length, keep,
  All, take, min, All-of_mem, All-mem, any, true, Bool-cases, str_eq, eq_iff, ◌==◌, ◌⊎◌, inl, inr,
}
use multi_tenant_siem.Detection.Model.{Alert}
use multi_tenant_siem.Http.Groups.{
  Database, occurrences, group_counts, IsDescending, text_key, nullable_key,
}
use multi_tenant_siem.Http.Groups.Limits.{
  wrap, read_groups-present, All-group_counts, All-perm, All-take, All-map_inv, All-weaken,
  length-take-take, length-map, take-IsDescending,
}
use multi_tenant_siem.Http.Groups.Places.{
  Placed, take-Placed, take-take, mem-perm, mem-map, mem-group_counts, group_counts-once,
}
use multi_tenant_siem.Http.Analytics.{
  Attacker, attacker_of, latest, last_seen_of, risk_score_of, get_attackers,
}

-- No attacker has fewer alerts or a lower score than the next.
abbrev pub IsRanked : List Attacker → Type 0
IsRanked [] = Unit
IsRanked (_ ∷ []) = Unit
IsRanked (a ∷ b ∷ rest) =
    (b.attack_count ≤ a.attack_count) × (b.risk_score ≤ a.risk_score) × IsRanked (b ∷ rest)

-- The row has the number of the alerts from its address, `last_seen` is the time of one of them and
-- none is later, and the score is ten for each alert and at most a hundred.
abbrev pub IsCounted : List Alert → Attacker → Type 0
IsCounted alerts a =
    (a.attack_count ≡ length (keep (λ x. str_eq a.ip x.source_ip) alerts))
    × (any (λ x. x.created_at == a.last_seen) (keep (λ x. str_eq a.ip x.source_ip) alerts) ≡ true)
    × All (λ x. x.created_at ≤ a.last_seen) (keep (λ x. str_eq a.ip x.source_ip) alerts)
    × (a.risk_score ≡ min 100 (10 * a.attack_count))

-- The address of the alert has a row, or there are as many rows as there may be and none has fewer
-- alerts than this address.
abbrev pub HasRow : ℕ → List Alert → List Attacker → Alert → Type 0
HasRow limit alerts result x =
    (any (λ a. str_eq x.source_ip a.ip) result ≡ true)
    ⊎ ((length result ≡ limit)
        × All (λ a. length (keep (λ y. str_eq x.source_ip y.source_ip) alerts) ≤ a.attack_count)
            result)

abbrev ips : List Alert → List (Option String)
ips = map (λ a. some a.source_ip)

-- The latest of the times is one of them.
latest-there :
    (x : Alert) (alerts : List Alert)
    → any (λ y. y.created_at == latest (map (λ a. a.created_at) (x ∷ alerts))) (x ∷ alerts) ≡ true
latest-there x [] = ground arith
latest-there x (y ∷ alerts) = ground (arith, latest-there y alerts)

latest-there_mem :
    (x : Alert) (alerts : List Alert)
    → Memᴰ x alerts
    → any (λ y. y.created_at == latest (map (λ a. a.created_at) alerts)) alerts ≡ true
latest-there_mem x [] m = elim m [ ]
latest-there_mem x (y ∷ alerts) m = latest-there y alerts

-- An address of the list is that of one of its alerts.
mem-ips :
    (ip : String) (alerts : List Alert)
    → Memᴰ (some ip) (ips alerts)
    → (x : Alert) × Memᴰ x (keep (λ x. str_eq ip x.source_ip) alerts)
mem-ips ip [] m = elim m [ ]
mem-ips ip (a ∷ alerts) (Memᴰ.head e) =
    let same : ip ≡ a.source_ip = cc in rw ((eq_iff ip a.source_ip).1 same) (a, Memᴰ.head refl)
mem-ips ip (a ∷ alerts) (Memᴰ.tail m) =
    let (x, there) = mem-ips ip alerts m in
    elim (Bool-cases (str_eq ip a.source_ip)) [
      | inl same ↦ rw same (a, Memᴰ.head refl)
      | inr other ↦ rw other (x, there)
    ]

-- None of the times is later than a bound of the latest.
latest-bound :
    (bound : ℕ) (alerts : List Alert)
    → latest (map (λ a. a.created_at) alerts) ≤ bound
    → All (λ x. x.created_at ≤ bound) alerts
latest-bound bound [] h = tt
latest-bound bound (a ∷ alerts) h = (ground arith, latest-bound bound alerts (ground arith))

risk_score_of-min : (n : ℕ) → risk_score_of n ≡ min 100 (10 * n)
risk_score_of-min n = ground arith

risk_score_of-le : (m n : ℕ) → m ≤ n → risk_score_of m ≤ risk_score_of n
risk_score_of-le m n h = ground arith

occurrences-ips :
    (ip : String) (alerts : List Alert)
    → occurrences (some ip) (ips alerts) ≡ length (keep (λ x. str_eq ip x.source_ip) alerts)
unfolding occurrences
occurrences-ips ip [] = refl
occurrences-ips ip (a ∷ alerts) = ground (arith, occurrences-ips ip alerts)

ips-present : (alerts : List Alert) → All (λ o. (v : String) × (o ≡ some v)) (ips alerts)
ips-present [] = tt
ips-present (a ∷ alerts) = ((a.source_ip, refl), ips-present alerts)

IsRanked-of_groups :
    (alerts : List Alert) (gs : List (String × ℕ))
    → IsDescending (map wrap gs)
    → IsRanked (map (λ g. attacker_of alerts g.0 g.1) gs)
IsRanked-of_groups alerts [] h = tt
IsRanked-of_groups alerts (g ∷ []) h = tt
IsRanked-of_groups alerts (g ∷ j ∷ gs) (le, h) =
    (le, risk_score_of-le j.1 g.1 le, IsRanked-of_groups alerts (j ∷ gs) h)

-- A group of one address, which an alert has, with its count.
abbrev IsGroup : List Alert → Option String × ℕ → Type 0
IsGroup alerts g =
    (((v : String) × (g.0 ≡ some v)) × Memᴰ g.0 (ips alerts)) × (g.1 ≡ occurrences g.0 (ips alerts))

group_counts-IsGroup : (alerts : List Alert) → All (IsGroup alerts) (group_counts (ips alerts))
group_counts-IsGroup alerts =
    All-group_counts (λ o. ((v : String) × (o ≡ some v)) × Memᴰ o (ips alerts)) (ips alerts)
      (All-of_mem _ (ips alerts) (λ o m. (All-mem _ (ips alerts) (ips-present alerts) m, m)))

IsCounted-of_groups :
    (alerts : List Alert) (gs : List (String × ℕ))
    → All (λ g. IsGroup alerts (wrap g)) gs
    → All (IsCounted alerts) (map (λ g. attacker_of alerts g.0 g.1) gs)
IsCounted-of_groups alerts [] h = tt
IsCounted-of_groups alerts (g ∷ gs) (((v, there), p), h) =
    let (x, m) = mem-ips g.0 alerts there in
    let same_address = keep (λ x. str_eq g.0 x.source_ip) alerts in
    (
      (
        p ∙ occurrences-ips g.0 alerts,
        latest-there_mem x same_address m,
        latest-bound (last_seen_of g.0 alerts) same_address (omega arith),
        risk_score_of-min g.1,
      ),
      IsCounted-of_groups alerts gs h,
    )

any-of_group :
    (alerts : List Alert) (ip : String) (n : ℕ) (gs : List (String × ℕ))
    → Memᴰ (some ip, n) (map wrap gs)
    → any (λ a. str_eq ip a.ip) (map (λ g. attacker_of alerts g.0 g.1) gs) ≡ true
any-of_group alerts ip n [] m = elim m [ ]
any-of_group alerts ip n (g ∷ gs) (Memᴰ.head e) =
    let shown : some ip ≡ some g.0 = ap (λ p. p.0) e in
    let same : ip ≡ g.0 = cc in rw ((eq_iff ip g.0).1 same) refl
any-of_group alerts ip n (g ∷ gs) (Memᴰ.tail m) = rw (any-of_group alerts ip n gs m) (ground arith)

All-of_groups :
    (alerts : List Alert) (n : ℕ) (gs : List (String × ℕ))
    → All (λ h. n ≤ h.1) (map wrap gs)
    → All (λ a. n ≤ a.attack_count) (map (λ g. attacker_of alerts g.0 g.1) gs)
All-of_groups alerts n [] h = tt
All-of_groups alerts n (g ∷ gs) (le, h) = (le, All-of_groups alerts n gs h)

HasRow-of_groups :
    (limit : ℕ) (alerts : List Alert) (gs : List (String × ℕ)) (x : Alert)
    → Placed limit (some x.source_ip, occurrences (some x.source_ip) (ips alerts)) (map wrap gs)
    → HasRow limit alerts (map (λ g. attacker_of alerts g.0 g.1) gs) x
HasRow-of_groups limit alerts gs x (inl m) = inl (any-of_group alerts x.source_ip _ gs m)
HasRow-of_groups limit alerts gs x (inr (full, above)) = inr (
  length-map (λ (g : String × ℕ). attacker_of alerts g.0 g.1) gs ∙ sym (length-map wrap gs) ∙ full,
  subst (λ k. All (λ a. k ≤ a.attack_count) (map (λ g. attacker_of alerts g.0 g.1) gs))
      (occurrences-ips x.source_ip alerts) (All-of_groups alerts _ gs above),
)

-- The rows of an address are the groups of its address.
rows_of_groups :
    (alerts : List Alert) (ip : String) (gs : List (String × ℕ))
    → length (keep (λ a. str_eq ip a.ip) (map (λ g. attacker_of alerts g.0 g.1) gs))
      ≡ length (keep (λ (g : Option String × ℕ). nullable_key.same (some ip) g.0) (map wrap gs))
rows_of_groups alerts ip [] = refl
rows_of_groups alerts ip (g ∷ gs) = ground (arith, rows_of_groups alerts ip gs)

-- The group of an alert's address is placed in what the two limits leave.
address-Placed :
    (db : Database) (n : ℕ) (alerts : List Alert) (x : Alert)
    → Memᴰ x alerts
    → Placed
        (min n 10)
        (some x.source_ip, occurrences (some x.source_ip) (ips alerts))
        (take n (take 10 (db.order (group_counts (ips alerts)))))
address-Placed db n alerts x m =
    let groups = group_counts (ips alerts) in
    subst (Placed (min n 10) _) (sym (take-take n 10 (db.order groups))) (
      take-Placed (min n 10) (db.order groups) (db.order-IsDescending groups) (
        mem-perm (db.order-perm groups)
          (mem-group_counts (ips alerts) (mem-map (λ a. some a.source_ip) alerts m))))

-- Whatever part of the result arrives, the list of attackers is read without an error, has at most
-- ten rows, the most active addresses first, and each row has the number of the alerts from its
-- address, the time of the latest of them as `last_seen`, and a score of ten for each alert and at
-- most a hundred. No address has two rows, and the address of every alert has a row, or as many rows as arrive and are allowed are
-- there and none of them has fewer alerts than this address.
pub get_attackers-IsRanked :
    (db : Database) (n : ℕ) (alerts : List Alert)
    → (result : List Attacker) × (get_attackers db (some n) alerts ≡ some result)
      × (length result ≤ 10)
      × IsRanked result
      × All (IsCounted alerts) result
      × All (HasRow (min n 10) alerts result) alerts
      × ((ip : String) → length (keep (λ a. str_eq ip a.ip) result) ≤ 1)
unfolding get_attackers
get_attackers-IsRanked db n alerts =
    let groups = group_counts (ips alerts) in
    let sorted = take 10 (db.order groups) in
    let good =
      All-take (IsGroup alerts) 10 (db.order groups)
        (All-perm (IsGroup alerts) (db.order-perm groups) (group_counts-IsGroup alerts)) in
    let (gs, read, same) =
      read_groups-present db (attacker_of alerts) n sorted
        (All-weaken (IsGroup alerts) _ (λ g h. h.0.0) sorted good) in
    (
      map (λ g. attacker_of alerts g.0 g.1) gs,
      read,
      omega (
        arith,
        length-map (λ (g : String × ℕ). attacker_of alerts g.0 g.1) gs,
        length-map wrap gs,
        ap length same,
        length-take-take n 10 (db.order groups),
      ),
      IsRanked-of_groups alerts gs (
          subst IsDescending same (
            take-IsDescending n sorted
              (take-IsDescending 10 (db.order groups) (db.order-IsDescending groups)))),
      IsCounted-of_groups alerts gs (
          All-map_inv (IsGroup alerts) wrap gs
            (subst (All (IsGroup alerts)) same (All-take (IsGroup alerts) n sorted good))),
      All-of_mem _ alerts (λ x m.
          HasRow-of_groups (min n 10) alerts gs x
            (subst (Placed (min n 10) _) same (address-Placed db n alerts x m))),
      λ ip. omega (
        arith,
        rows_of_groups alerts ip gs,
        ap
            (λ (hs : List (Option String × ℕ)).
              length (keep (λ (g : Option String × ℕ). nullable_key.same (some ip) g.0) hs))
            same,
        group_counts-once (some ip) n 10 (ips alerts) (db.order groups) (db.order-perm groups),
      ),
    )
