-- ===== src/Http/Alerts/Honest.antt =====
-- What GET /alerts answers (ingestion-service/internal/middleware/auth.go,
-- internal/handler/alert_handler.go), and what the page may rely on.
use multi_tenant_siem.Base.{
  take, ℕ, ◌+◌, ◌≤◌, String, ◌≡◌, refl, ap, ◌∙◌, inl, inr, Bool, true, false, some, List, [], ◌∷◌,
  arith, leb, str_eq, eq_iff, if◌then◌else◌, Bool-cases, Option-cases, keep, All, All-keep, Option,
}
use multi_tenant_siem.Js.{Value, array, elements, strict_eq}
use multi_tenant_siem.Detection.Model.{Alert}
use multi_tenant_siem.Detection.Store.{get, get-put}
use multi_tenant_siem.Service.Json.{alert_json, values}
use multi_tenant_siem.Dashboard.Fetch.{array_or_member}
use multi_tenant_siem.Dashboard.Feed.{current_tenant_id, belongs_to}
use multi_tenant_siem.Dashboard.Session.Tenants.{IsHonest}
use multi_tenant_siem.Http.Groups.Limits.{All-take}
use multi_tenant_siem.Http.Alerts.{
  api_keys, with_master_key, insert_row, newest_first, alerts_of, get_alerts, alerts_endpoint,
}

pub elements-array : (vs : List Value) → elements (array vs) ≡ vs
elements-array [] = refl
elements-array (v ∷ vs) = ap (λ (xs : List Value). v ∷ xs) (elements-array vs)

-- The first row of the list, if there is one, is not newer than `a`.
abbrev pub Above : Alert → List Alert → Type 0
Above a [] = Unit
Above a (b ∷ rest) = b.created_at ≤ a.created_at

-- Later rows of the answer are not newer.
abbrev pub IsNewestFirst : List Alert → Type 0
IsNewestFirst [] = Unit
IsNewestFirst (a ∷ rest) = Above a rest × IsNewestFirst rest

module _ (P : Alert → Type 0) where
  All-insert_row : (a : Alert) (xs : List Alert) → P a → All P xs → All P (insert_row a xs)
  unfolding insert_row
  All-insert_row a [] pa h = (pa, tt)
  All-insert_row a (b ∷ xs) pa (pb, h) = elim (Bool-cases (leb b.created_at a.created_at)) [
    | inl first ↦ rw (first, insert_row) (pa, (pb, h))
    | inr later ↦ rw (later, insert_row) (pb, All-insert_row a xs pa h)
  ]

  pub All-newest_first : (xs : List Alert) → All P xs → All P (newest_first xs)
  unfolding newest_first
  All-newest_first [] h = tt
  All-newest_first (a ∷ xs) (pa, h) = All-insert_row a (newest_first xs) pa (All-newest_first xs h)

-- How many of the rows pass a test.
abbrev pub count_of : (Alert → Bool) → List Alert → ℕ
count_of p [] = 0
count_of p (a ∷ xs) = (if p a then 1 else 0) + count_of p xs

count_of-insert_row :
    (p : Alert → Bool) (a : Alert) (xs : List Alert)
    → count_of p (insert_row a xs) ≡ count_of p (a ∷ xs)
unfolding insert_row
count_of-insert_row p a [] = refl
count_of-insert_row p a (b ∷ xs) = elim (Bool-cases (leb b.created_at a.created_at)) [
  | inl first ↦ rw (first, insert_row) refl
  | inr later ↦ rw (later, insert_row) (omega (arith, count_of-insert_row p a xs))
]

count_of-newest_first :
    (p : Alert → Bool) (xs : List Alert) → count_of p (newest_first xs) ≡ count_of p xs
unfolding newest_first
count_of-newest_first p [] = refl
count_of-newest_first p (a ∷ xs) =
    omega (arith, count_of-insert_row p a (newest_first xs), count_of-newest_first p xs)

Above-insert_row :
    (b a : Alert) (xs : List Alert)
    → Above b xs
    → a.created_at ≤ b.created_at
    → Above b (insert_row a xs)
unfolding insert_row
Above-insert_row b a [] h le = le
Above-insert_row b a (c ∷ xs) h le = elim (Bool-cases (leb c.created_at a.created_at)) [
  | inl first ↦ rw (first, insert_row) le
  | inr later ↦ rw (later, insert_row) h
]

insert_row-IsNewestFirst :
    (a : Alert) (xs : List Alert) → IsNewestFirst xs → IsNewestFirst (insert_row a xs)
unfolding insert_row
insert_row-IsNewestFirst a [] h = (tt, tt)
insert_row-IsNewestFirst a (b ∷ xs) (above, h) = elim (Bool-cases (leb b.created_at a.created_at)) [
  | inl first ↦ rw (first, insert_row) (ground arith, (above, h))
  | inr later ↦
      rw (later, insert_row)
        (Above-insert_row b a xs above (ground arith), insert_row-IsNewestFirst a xs h)
]

newest_first-IsNewestFirst : (xs : List Alert) → IsNewestFirst (newest_first xs)
unfolding newest_first
newest_first-IsNewestFirst [] = tt
newest_first-IsNewestFirst (a ∷ xs) =
    insert_row-IsNewestFirst a (newest_first xs) (newest_first-IsNewestFirst xs)

-- The rows that are listed for a tenant are the tenant's, they are all the tenant's rows, each as
-- often as it stands in the table (whatever test they are counted by), and no row is newer than one
-- before it.
pub alerts_of_lem :
    (tenant : String) (rows : List Alert) (p : Alert → Bool)
    → All (λ a. str_eq a.tenant_id tenant ≡ true) (alerts_of tenant rows)
      × (count_of p (alerts_of tenant rows)
          ≡ count_of p (keep (λ a. str_eq a.tenant_id tenant) rows))
      × IsNewestFirst (alerts_of tenant rows)
unfolding alerts_of
alerts_of_lem tenant rows p =
    let own = keep (λ a. str_eq a.tenant_id tenant) rows in
    (
      All-newest_first _ own (All-keep (λ a. str_eq a.tenant_id tenant) rows),
      count_of-newest_first p own,
      newest_first-IsNewestFirst own,
    )

values-belongs_to :
    (time_text : ℕ → String) (tenant : String) (xs : List Alert)
    → All (λ a. str_eq a.tenant_id tenant ≡ true) xs
    → All (λ v. belongs_to tenant v ≡ true) (values time_text xs)
unfolding belongs_to strict_eq alert_json
values-belongs_to time_text tenant [] h = tt
values-belongs_to time_text tenant (a ∷ xs) (own, h) =
    (own, values-belongs_to time_text tenant xs h)

tenant_of_key :
    (key tenant : String) → get key api_keys ≡ some tenant → current_tenant_id key ≡ tenant
unfolding get current_tenant_id
tenant_of_key key tenant h = ground (
  arith,
  eq_iff "tenant1-secret-key" key,
  eq_iff "tenant2-secret-key" key,
  eq_iff key "tenant1-secret-key",
  eq_iff key "tenant2-secret-key",
)

get-with_master_key :
    (master key : String) (keys : List (String × String))
    → str_eq master key ≡ false
    → get key (with_master_key master keys) ≡ get key keys
unfolding with_master_key
get-with_master_key master key keys other = elim (Bool-cases (str_eq master "")) [
  | inl unset ↦ rw (unset, with_master_key)
  | inr set ↦ rw (set, with_master_key, get-put, other)
]

-- The server answers GET /alerts as the page relies on: for every API key but the master key, the
-- answer, if it has a body that parses, lists only alerts of the tenant whose alerts the page shows
-- under that key, whatever rows the table has and however many of them arrive, or if the query fails.
pub alerts_endpoint-IsHonest :
    (time_text : ℕ → String) (not_json master : String) (delivered : Option ℕ) (rows : List Alert)
    (key : String)
    → str_eq master key ≡ false
    → IsHonest key
        (alerts_endpoint time_text not_json (with_master_key master api_keys) delivered rows key)
unfolding alerts_endpoint get_alerts array_or_member
alerts_endpoint-IsHonest time_text not_json master delivered rows key other =
    let known = get-with_master_key master key api_keys other in
    elim (Option-cases (get key api_keys)) [
      | inl nobody ↦ rw (known ∙ nobody, alerts_endpoint) tt
      | inr (tenant, e) ↦
          rw (known ∙ e, alerts_endpoint) (listed tenant (tenant_of_key key tenant e))
    ]
  where
    listed :
        (tenant : String)
        → current_tenant_id key ≡ tenant
        → IsHonest key (get_alerts time_text not_json delivered rows tenant)
    listed tenant same = elim (Bool-cases (str_eq tenant "")) [
      | inl empty ↦ rw (empty, get_alerts) tt
      | inr there ↦ elim (Option-cases delivered) [
        | inl failed ↦ rw (there, failed, get_alerts) tt
        | inr (n, read) ↦
            rw (there, read, get_alerts)
              (rw (elements-array, same)
                (values-belongs_to time_text tenant (take n (alerts_of tenant rows)) (
                  All-take (λ (a : Alert). str_eq a.tenant_id tenant ≡ true) n
                    (alerts_of tenant rows) (alerts_of_lem tenant rows (λ a. true)).0)))
      ]
    ]
