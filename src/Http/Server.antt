-- ===== src/Http/Server.antt =====
-- The routes and the chain of middleware of ingestion-service/cmd/server/main.go.
pub mod Keys
pub mod Start
pub mod Queue
use multi_tenant_siem.Base.{
  ℕ, zero, suc, ◌+◌, ◌-◌, ◌*◌, ◌≤◌, ◌<◌, String, ◌≡◌, refl, sym, ap, ◌∙◌, ◌≢◌, ◌↔◌, ◌⊎◌, inl, inr,
  Bool, true, false, not, ◌&&◌, ◌||◌, Option, none, some, List, [], ◌∷◌, ◌++◌, map, arith, ltb, leb,
  ◌==◌, str_eq, eq_iff, eq_refl, if◌then◌else◌, Bool-cases, Option-cases, length, any, keep, All,
  Memᴰ,
}
use multi_tenant_siem.Js.{Value, str, obj, field, end}
use multi_tenant_siem.Detection.Model.{Event, Alert}
use multi_tenant_siem.Dashboard.Fetch.{Reply, response, Body, parsed, garbled}
use multi_tenant_siem.Http.Alerts.{get_alerts}
use multi_tenant_siem.Http.Groups.{Database}
use multi_tenant_siem.Http.Ingest
use multi_tenant_siem.Http.Ingest.{Ingested, ingest_log}
use multi_tenant_siem.Http.Analytics.Endpoints.{
  traffic_endpoint, status_codes_endpoint, top_paths_endpoint, attackers_endpoint,
}
use multi_tenant_siem.Http.Middleware.{
  Request, World, Answer, answered, waiting, connected, scraped, Result, Handler, cors,
  with_request_id, logging, limited, auth, error,
}

pub data Route : Type 0 where
  logs alerts traffic status_codes top_paths ws attackers healthz metrics not_found : Route

-- The patterns of the mux, for a path without empty or dotted parts.
unfoldable pub route : String → Route
route path =
    if str_eq path "/logs"
    then logs
    else if str_eq path "/alerts"
    then alerts
    else if str_eq path "/analytics/traffic"
    then traffic
    else if str_eq path "/analytics/status-codes"
    then status_codes
    else if str_eq path "/analytics/top-paths"
    then top_paths
    else if str_eq path "/ws"
    then ws
    else if str_eq path "/analytics/attackers"
    then attackers
    else if str_eq path "/healthz"
    then healthz
    else if str_eq path "/metrics"
    then metrics
    else not_found

-- What one request reads: the clock, its new id, the tables, and how the queries end.
pub record Reading : Type 0 where
  pub now : ℕ
  pub new_id : String
  pub logs_table : List Event
  pub alerts_table : List Alert
  pub alerts_delivered : Option ℕ
  pub total_fails : Bool
  pub error_fails : Bool
  pub ip_fails : Bool
  pub delivered : Option ℕ

-- The answer to POST /logs.
unfoldable pub ingest_result : String → List (String × String) → World → Ingested → Result
ingest_result not_json headers w (Ingest.waiting event) = record {
  headers = headers;
  answer = waiting event;
  world = w;
}
ingest_result not_json headers w (Ingest.answered status message queue) =
    let w' = record w { queue = queue } in
    if status == 202
    then (record {
      headers = headers ++ ("Content-Type", "application/json") ∷ [];
      answer = answered (response 202 (parsed (obj (field "status" (str message) end))));
      world = w';
    })
    else error not_json status headers w'

-- A handler that answers and changes nothing; Content-Type is set if it answers with JSON.
unfoldable pub reading : (Request → Reply) → Handler
reading reply r headers w = elim (reply r) [
  | response status (parsed v) ↦ record {
    headers = headers ++ ("Content-Type", "application/json") ∷ [];
    answer = answered (response status (parsed v));
    world = w;
  }
  | other ↦ record { headers = headers; answer = answered other; world = w }
]

-- The database, how a time is written, the text of an error, and the API keys.
module _ (db : Database) (time_text : ℕ → String) (not_json : String)
    (keys : List (String × String)) (rd : Reading) where
  -- The handler of a route.
  unfoldable pub handler : Route → Handler
  unfolding ingest_log ingest_result reading get_alerts auth traffic_endpoint status_codes_endpoint
      top_paths_endpoint attackers_endpoint
  handler logs r headers w = ingest_result not_json headers w (ingest_log rd.now r.body w.queue)
  handler alerts r headers w =
      auth not_json keys
        (reading λ q. get_alerts time_text not_json rd.alerts_delivered rd.alerts_table q.tenant) r
        headers w
  handler traffic r headers w =
      reading
        (λ _. traffic_endpoint db not_json rd.total_fails rd.error_fails rd.ip_fails rd.logs_table)
        r headers w
  handler status_codes r headers w =
      reading (λ _. status_codes_endpoint db not_json rd.delivered rd.logs_table) r headers w
  handler top_paths r headers w =
      reading (λ _. top_paths_endpoint db not_json rd.delivered rd.logs_table) r headers w
  handler ws r headers w = record { headers = headers; answer = connected; world = w }
  handler attackers r headers w =
      reading (λ _. attackers_endpoint db not_json rd.delivered time_text rd.alerts_table) r headers
        w
  handler healthz r headers w = reading (λ _. response 200 (garbled not_json)) r headers w
  handler metrics r headers w = record { headers = headers; answer = scraped; world = w }
  handler not_found r headers w = reading (λ _. response 404 (garbled not_json)) r headers w

  -- The router
  unfoldable pub mux : Handler
  unfolding route handler
  mux r headers w = handler (route r.path) r headers w

  -- `finalHandler`
  unfoldable pub final_handler : Handler
  unfolding cors with_request_id logging limited mux
  final_handler = cors not_json (with_request_id rd.new_id (logging (limited not_json rd.now mux)))
