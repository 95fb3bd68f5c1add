-- ===== src/Examples/Analytics.antt =====
-- Short tables (ingestion-service/internal/repository/analytics_repository.go).
use multi_tenant_siem.Base.{
  String, str_eq, keep, decimal, ◌≤◌, ◌≡◌, refl, false, some, List, [], ◌∷◌, arith, length, All,
}
use multi_tenant_siem.Detection.Model.{Event, Alert}
use multi_tenant_siem.Http.Groups.{occurrences}
use multi_tenant_siem.Http.Analytics.{
  Attacker, StatusCodeMetric, TrafficAnalytics, metadata, get_attackers, get_status_code_analytics,
  get_traffic_analytics,
}
use multi_tenant_siem.Http.Analytics.Ranked.{IsRanked, IsCounted, HasRow, get_attackers-IsRanked}
use multi_tenant_siem.Http.Analytics.Complete.{HasCode, sum_of, status_codes_sum}
use multi_tenant_siem.Agent.Nginx.{access_event, atoi}
use multi_tenant_siem.Examples.Sorting.{sorted, sort}
use multi_tenant_siem.Examples.Detectors.{raised}

-- Three alerts from two addresses.
abbrev alerts : List Alert
alerts =
    record raised { created_at = 5 }
    ∷ record raised { source_ip = "10.0.0.9"; created_at = 6 }
    ∷ record raised { source_ip = "10.0.0.9"; created_at = 8 }
    ∷ []

get_attackers-IsRanked_example :
    (result : List Attacker) × (get_attackers sorted (some 10) alerts ≡ some result)
    × (length result ≤ 10)
    × IsRanked result
    × All (IsCounted alerts) result
    × All (HasRow 10 alerts result) alerts
    × ((ip : String) → length (keep (λ a. str_eq ip a.ip) result) ≤ 1)
get_attackers-IsRanked_example = get_attackers-IsRanked sorted 10 alerts

two_attackers :
    get_attackers sorted (some 10) alerts
    ≡ some (
        record { ip = "10.0.0.9"; attack_count = 2; last_seen = 8; risk_score = 20 }
        ∷ record { ip = "10.0.0.7"; attack_count = 1; last_seen = 5; risk_score = 10 }
        ∷ [])
unfolding get_attackers sort occurrences
two_attackers = refl

-- Three requests with two status codes.
abbrev requests : List Event
requests =
    access_event 1 "10.0.0.1" "GET" "/" 200
    ∷ access_event 2 "10.0.0.1" "GET" "/x" 404
    ∷ access_event 3 "10.0.0.2" "GET" "/" 200
    ∷ []

requests-HaveCodes : All (HasCode sorted) requests
unfolding metadata decimal atoi
requests-HaveCodes =
    (("200", 200, refl, refl), (("404", 404, refl, refl), (("200", 200, refl, refl), tt)))

status_codes_sum_example :
    (metrics : List StatusCodeMetric) × (t : TrafficAnalytics) × (get_status_code_analytics sorted
        (some 5)
        requests
      ≡ some metrics)
    × (get_traffic_analytics sorted false false false requests ≡ some t)
    × (sum_of metrics ≡ t.total_requests)
status_codes_sum_example = status_codes_sum sorted 5 requests requests-HaveCodes (omega arith)
