-- ===== src/Http/Analytics.antt =====
-- The analytics of the ingestion service: ingestion-service/internal/repository/analytics_repository.go,
-- which internal/service/analytics_service.go passes on.
-- The rows of `logs` are the events that the batches store: `service` is the source, `level` the
-- severity and `metadata` the payload.
pub mod Endpoints
pub mod Ranked
pub mod Complete
use multi_tenant_siem.Base.{
  ℕ, zero, suc, ◌+◌, ◌-◌, ◌*◌, ◌≤◌, ◌<◌, String, ◌≡◌, refl, sym, ap, ◌∙◌, ◌≢◌, ◌↔◌, ◌⊎◌, inl, inr,
  Bool, true, false, not, ◌&&◌, ◌||◌, Option, none, some, List, [], ◌∷◌, ◌++◌, map, arith, ltb, leb,
  ◌==◌, str_eq, eq_iff, eq_refl, if◌then◌else◌, Bool-cases, Option-cases, length, any, keep, All,
  Memᴰ, decimal, take,
}
use multi_tenant_siem.Js.{
  Value, Fields, Items, undefined, null, str, num, bool, obj, arr, array, end, field, field_of,
}
use multi_tenant_siem.Detection.Model.{Event, Alert}
use multi_tenant_siem.Dashboard.Fetch.{Reply, response, Body, parsed, garbled}
use multi_tenant_siem.Http.Groups.{
  Key, Database, distinct, group_counts, number_key, text_key, nullable_key,
}

pub record TrafficAnalytics : Type 0 where
  pub total_requests : ℕ
  pub error_requests : ℕ
  pub unique_ips : ℕ

pub record StatusCodeMetric : Type 0 where
  pub status_code : ℕ
  pub count : ℕ

pub record TopPath : Type 0 where
  pub path : String
  pub count : ℕ

pub record Attacker : Type 0 where
  pub ip : String
  pub attack_count : ℕ
  pub last_seen : ℕ
  pub risk_score : ℕ

-- WHERE service = 'nginx'
abbrev pub nginx_rows : List Event → List Event
nginx_rows = keep (λ row. str_eq row.source "nginx")

-- AND level = 'WARNING'
abbrev pub warnings : List Event → List Event
warnings = keep (λ row. str_eq row.severity "WARNING")

-- The values that are not NULL.
abbrev pub present : List (Option String) → List String
present [] = []
present (none ∷ vs) = present vs
present (some v ∷ vs) = v ∷ present vs

-- The loop over `rows.Next()` with its `Scan`: an error if the column is NULL. `delivered` rows
-- arrive; the loop ends without an error when the connection breaks.
unfoldable pub scan_rows : {K R : Type 0} → (K → ℕ → R) → List (Option K × ℕ) → Option (List R)
scan_rows make [] = some []
scan_rows make ((none, n) ∷ groups) = none
scan_rows make ((some v, n) ∷ groups) = elim (scan_rows make groups) [
  | none ↦ none
  | some metrics ↦ some (make v n ∷ metrics)
]

abbrev pub status_code_metric : ℕ → ℕ → StatusCodeMetric
status_code_metric status_code n = record { status_code = status_code; count = n }

abbrev pub top_path : String → ℕ → TopPath
top_path path n = record { path = path; count = n }

-- The latest of the times, 0 if there is none.
abbrev pub latest : List ℕ → ℕ
latest [] = 0
latest (t ∷ ts) = let u = latest ts in if ltb u t then t else u

-- MAX(created_at) of the group
abbrev pub last_seen_of : String → List Alert → ℕ
last_seen_of ip alerts = latest (map (λ a. a.created_at) (keep (λ a. str_eq ip a.source_ip) alerts))

-- "Simple risk scoring"
abbrev pub risk_score_of : ℕ → ℕ
risk_score_of attack_count =
    let risk_score = attack_count * 10 in if ltb 100 risk_score then 100 else risk_score

abbrev pub attacker_of : List Alert → String → ℕ → Attacker
attacker_of alerts ip attack_count = record {
  ip = ip;
  attack_count = attack_count;
  last_seen = last_seen_of ip alerts;
  risk_score = risk_score_of attack_count;
}

module _ (db : Database) where
  -- `metadata->>'key'`: `none` is NULL.
  unfoldable pub metadata : String → Event → Option String
  metadata key row = elim (field_of key row.payload) [
    | undefined ↦ none
    | null ↦ none
    | str s ↦ some s
    | num n ↦ some (decimal n)
    | bool b ↦ some (if b then "true" else "false")
    | obj fs ↦ some (db.nested_text (obj fs))
    | arr vs ↦ some (db.nested_text (arr vs))
  ]

  -- COUNT(DISTINCT metadata->>'ip')
  abbrev pub unique_ips_of : List Event → ℕ
  unique_ips_of rows = length (distinct (present (map (metadata "ip") rows)))

  -- `GetTrafficAnalytics`, with whether each of its queries fails: `none` is the error.
  unfoldable pub get_traffic_analytics : Bool → Bool → Bool → List Event → Option TrafficAnalytics
  unfolding metadata distinct
  get_traffic_analytics total_fails error_fails ip_fails rows =
      if total_fails
      then none
      else if error_fails
      then none
      else if ip_fails
      then none
      else some (record {
        total_requests = length (nginx_rows rows);
        error_requests = length (warnings (nginx_rows rows));
        unique_ips = unique_ips_of (nginx_rows rows);
      })

  -- `(metadata->>'status_code')::int` of all rows: a text that is no number fails the query.
  unfoldable pub status_codes_of : List Event → Option (List (Option ℕ))
  unfolding metadata
  status_codes_of [] = some []
  status_codes_of (row ∷ rows) = elim (status_codes_of rows) [
    | none ↦ none
    | some codes ↦ elim (metadata "status_code" row) [
      | none ↦ some (none ∷ codes)
      | some text ↦ elim (db.to_int text) [ none ↦ none | some n ↦ some (some n ∷ codes) ]
    ]
  ]

  -- How many rows arrive; `none` if the query fails.
  module _ (delivered : Option ℕ) where
    -- The result of a query, as far as it arrives, scanned.
    unfoldable pub read_groups :
        {K R : Type 0} → (K → ℕ → R) → List (Option K × ℕ) → Option (List R)
    unfolding scan_rows
    read_groups make groups = elim delivered [
      | none ↦ none
      | some n ↦ scan_rows make (take n groups)
    ]

    -- `GetStatusCodeAnalytics`
    unfoldable pub get_status_code_analytics : List Event → Option (List StatusCodeMetric)
    unfolding status_codes_of read_groups distinct
    get_status_code_analytics rows = elim (status_codes_of (nginx_rows rows)) [
      | none ↦ none
      | some codes ↦ read_groups status_code_metric (db.order (group_counts codes))
    ]

    -- `GetTopPaths`
    unfoldable pub get_top_paths : List Event → Option (List TopPath)
    unfolding metadata read_groups distinct
    get_top_paths rows =
        read_groups top_path
          (take 10 (db.order (group_counts (map (metadata "path") (nginx_rows rows)))))

    -- `GetAttackers`; `source_ip` is never NULL.
    unfoldable pub get_attackers : List Alert → Option (List Attacker)
    unfolding read_groups distinct
    get_attackers alerts =
        read_groups (attacker_of alerts)
          (take 10 (db.order (group_counts (map (λ a. some a.source_ip) alerts))))
