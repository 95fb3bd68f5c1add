-- ===== src/Examples/Requests.antt =====
-- Requests to the HTTP API (ingestion-service/internal/handler, internal/middleware).
use multi_tenant_siem.Base.{
  ℕ, ◌+◌, String, ◌≡◌, refl, Bool, true, some, List, [], ◌∷◌, arith, leb, str_eq, length, none,
}
use multi_tenant_siem.Detection.Model.{Event, Alert, minute}
use multi_tenant_siem.Dashboard.State.{Browser}
use multi_tenant_siem.Dashboard.Session.{Input, mount}
use multi_tenant_siem.Dashboard.Session.Tenants.{AllOf, IsHonest, play}
use multi_tenant_siem.Http.Alerts.{api_keys, with_master_key, alerts_of, alerts_endpoint}
use multi_tenant_siem.Http.Alerts.Honest.{alerts_endpoint-IsHonest}
use multi_tenant_siem.Http.Alerts.Served.{AreServed, play_served}
use multi_tenant_siem.Http.Ingest.{ingest_log}
use multi_tenant_siem.Http.Ingest.Consumer
use multi_tenant_siem.Http.Ingest.Consumer.{Read, start_consumer, start_consumer_lem}
use multi_tenant_siem.Http.Ingest.Validated.{Holds, ingest_log_lem}
use multi_tenant_siem.Http.RateLimit.{rate_limit}
use multi_tenant_siem.Http.RateLimit.Burst.{
  clients_after, rate_limit_burst, InMinute, first, visits,
}
use multi_tenant_siem.Examples.Detectors.{failure, raised}

-- Two rows of one tenant and one of another.
abbrev pub rows : List Alert
rows =
    record raised { id = 1; created_at = 10 }
    ∷ record raised { id = 2; tenant_id = "tenant_2"; created_at = 20 }
    ∷ record raised { id = 3; created_at = 30 }
    ∷ []

abbrev is_high : Alert → Bool
is_high a = str_eq a.severity "HIGH"

newest_is_first :
    alerts_of "tenant_1" rows
    ≡ record raised { id = 3; created_at = 30 } ∷ record raised { id = 1; created_at = 10 } ∷ []
unfolding alerts_of
newest_is_first = refl

abbrev pub rfc3339 : ℕ → String
rfc3339 t = "2026-05-01T10:00:00Z"

alerts_endpoint-IsHonest_example : IsHonest "tenant1-secret-key" (
    alerts_endpoint rfc3339 "unauthorized"
      (with_master_key "master" api_keys)
      (some 1000)
      rows
      "tenant1-secret-key")
alerts_endpoint-IsHonest_example =
    alerts_endpoint-IsHonest rfc3339 "unauthorized" "master" (some 1000) rows "tenant1-secret-key"
      refl

abbrev pub browser : Browser
browser = record {
  ms = 1000;
  time_text = "10:00:00";
  type_error = "is not a function";
  has_clipboard = true;
}

abbrev first_answer : List (Browser × Input)
first_answer =
    (
      browser,
      Input.answered 0 (
          alerts_endpoint rfc3339 "unauthorized" (with_master_key "" api_keys) (some 1000) rows
            "tenant1-secret-key"),
    )
    ∷ []

first_answer_served :
    AreServed rfc3339 "unauthorized" "" "ws://localhost:8080/ws" first_answer
      (mount browser "ws://localhost:8080/ws")
unfolding mount
first_answer_served = ((refl, (some 1000, rows, refl)), tt)

play_served_example :
    AllOf
      (play "ws://localhost:8080/ws" first_answer
        (mount browser "ws://localhost:8080/ws")).page.api_key
      (play "ws://localhost:8080/ws" first_answer
        (mount browser "ws://localhost:8080/ws")).page.alerts
play_served_example =
    play_served rfc3339 "unauthorized" "" browser "ws://localhost:8080/ws" first_answer
      first_answer_served

abbrev timed : Event
timed = record failure { timestamp = 5 }

ingest_log_lem_example : Holds 7 [] (ingest_log 7 (some timed) [])
ingest_log_lem_example = ingest_log_lem 7 (some timed) []

abbrev requests : List (ℕ × String)
requests = (1, "10.0.0.8:5000") ∷ (0, "10.0.0.7:5000") ∷ []

within :
    InMinute
      (first minute (visits "10.0.0.7:5000" requests))
      (minute ∷ visits "10.0.0.7:5000" requests)
unfolding visits
within = (omega arith, (omega arith, tt))

rate_limit_burst_example :
    (rate_limit minute "10.0.0.7:5000" (clients_after requests)).1
    ≡ leb (length (visits "10.0.0.7:5000" requests) + 1) 100
rate_limit_burst_example = rate_limit_burst minute "10.0.0.7:5000" requests within

abbrev reads : List Read
reads =
    Consumer.message (some failure)
    ∷ Consumer.failed
    ∷ Consumer.message none
    ∷ Consumer.cancelled
    ∷ Consumer.message (some failure)
    ∷ []

start_consumer_lem_example :
    start_consumer reads (record { queue = []; consumed = 0; slept = 0 })
    ≡ some (record { queue = failure ∷ []; consumed = 1; slept = 2000 })
start_consumer_lem_example =
    start_consumer_lem reads (record { queue = []; consumed = 0; slept = 0 }) (omega arith)
