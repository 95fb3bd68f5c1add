-- ===== src/Http/Analytics/Complete.antt =====
-- The status codes add up to the requests (`GetStatusCodeAnalytics` and `GetTrafficAnalytics` of
-- ingestion-service/internal/repository/analytics_repository.go).

use multi_tenant_siem.Base.{
  ℕ, suc, ◌+◌, ◌≤◌, String, ◌≡◌, refl, sym, ap, ◌∙◌, false, Option, some, List, [], ◌∷◌, map, arith,
  length, All,
}
use multi_tenant_siem.Detection.Model.{Event}
use multi_tenant_siem.Http.Groups.{Database, group_counts, total, number_key, nullable_key}
use multi_tenant_siem.Http.Groups.Totals.{total-perm, total-group_counts}
use multi_tenant_siem.Http.Groups.Limits.{
  wrap, read_groups-present, All-group_counts, All-perm, All-weaken, take-all, length-perm,
  length-group_counts-le,
}
use multi_tenant_siem.Http.Analytics.{
  TrafficAnalytics, StatusCodeMetric, status_code_metric, metadata, nginx_rows, status_codes_of,
  get_traffic_analytics, get_status_code_analytics,
}

-- The row has a status code that is a number.
abbrev pub HasCode : Database → Event → Type 0
HasCode db row =
    (text : String) × (code : ℕ) × (metadata db "status_code" row ≡ some text)
    × (db.to_int text ≡ some code)

abbrev pub sum_of : List StatusCodeMetric → ℕ
sum_of [] = 0
sum_of (m ∷ ms) = m.count + sum_of ms

abbrev IsPresent : Option ℕ → Type 0
IsPresent o = (v : ℕ) × (o ≡ some v)

status_codes_of-IsPresent :
    (db : Database) (rows : List Event)
    → All (HasCode db) rows
    → (codes : List (Option ℕ)) × (status_codes_of db rows ≡ some codes)
      × All IsPresent codes
      × (length codes ≡ length rows)
unfolding status_codes_of
status_codes_of-IsPresent db [] h = ([], refl, tt, refl)
status_codes_of-IsPresent db (row ∷ rows) ((text, code, has, cast), h) =
    let (codes, e, present, long) = status_codes_of-IsPresent db rows h in
    (
      some code ∷ codes,
      rw (e, has, cast, status_codes_of) refl,
      ((code, refl), present),
      ap suc long,
    )

sum_of-groups :
    (gs : List (ℕ × ℕ)) → sum_of (map (λ g. status_code_metric g.0 g.1) gs) ≡ total (map wrap gs)
sum_of-groups [] = refl
sum_of-groups (g ∷ gs) = omega (arith, sum_of-groups gs)

-- Where every nginx row has a status code that is a number, no query fails and the whole result
-- arrives, the counts of the status codes add up to `total_requests`.
pub status_codes_sum :
    (db : Database) (n : ℕ) (rows : List Event)
    → All (HasCode db) (nginx_rows rows)
    → length (nginx_rows rows) ≤ n
    → (metrics : List StatusCodeMetric) × (t : TrafficAnalytics) × (get_status_code_analytics db
          (some n)
          rows
        ≡ some metrics)
      × (get_traffic_analytics db false false false rows ≡ some t)
      × (sum_of metrics ≡ t.total_requests)
unfolding get_status_code_analytics get_traffic_analytics
status_codes_sum db n rows h room =
    let (codes, e, present, long) = status_codes_of-IsPresent db (nginx_rows rows) h in
    let groups = group_counts codes in
    let (gs, read, same) = read_groups-present db status_code_metric n (db.order groups) (
      All-weaken _ _ (λ g p. p.0) (db.order groups)
        (All-perm _ (db.order-perm groups) (All-group_counts IsPresent codes present))) in
    (
      map (λ g. status_code_metric g.0 g.1) gs,
      record { total_requests = length (nginx_rows rows); error_requests = _; unique_ips = _ },
      rw (e, get_status_code_analytics) read,
      refl,
      sum_of-groups gs
          ∙ ap total (
              sym same
              ∙ take-all n (db.order groups)
                  (omega (arith, length-perm (db.order-perm groups), length-group_counts-le codes)))
          ∙ total-perm (db.order-perm groups)
          ∙ total-group_counts codes
          ∙ long,
    )
