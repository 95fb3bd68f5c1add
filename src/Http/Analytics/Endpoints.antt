-- ===== src/Http/Analytics/Endpoints.antt =====
-- ingestion-service/internal/handler/analytics_handler.go with the tags of internal/model.
use multi_tenant_siem.Base.{ℕ, String, Bool, Option, none, some, List, map}
use multi_tenant_siem.Js.{Value, str, num, obj, arr, array, end, field}
use multi_tenant_siem.Detection.Model.{Event, Alert}
use multi_tenant_siem.Dashboard.Fetch.{Reply, response, parsed, garbled}
use multi_tenant_siem.Http.Groups.{Database, number_key, text_key, nullable_key}
use multi_tenant_siem.Http.Analytics.{
  TrafficAnalytics, StatusCodeMetric, TopPath, Attacker, get_traffic_analytics,
  get_status_code_analytics, get_top_paths, get_attackers,
}

-- How the handlers send a result; `http.Error` sends a text that is no JSON.
abbrev pub reply_of : {R : Type 0} → String → (R → Value) → Option R → Reply
reply_of not_json json none = response 500 (garbled not_json)
reply_of not_json json (some v) = response 200 (parsed (json v))

abbrev pub list_json : {R : Type 0} → (R → Value) → List R → Value
list_json json rows = arr (array (map json rows))

abbrev pub traffic_json : TrafficAnalytics → Value
traffic_json t = obj (
    field "total_requests" (num t.total_requests)
      (field "error_requests" (num t.error_requests) (field "unique_ips" (num t.unique_ips) end)))

abbrev pub status_code_json : StatusCodeMetric → Value
status_code_json m = obj (field "status_code" (num m.status_code) (field "count" (num m.count) end))

abbrev pub top_path_json : TopPath → Value
top_path_json p = obj (field "path" (str p.path) (field "count" (num p.count) end))

abbrev pub attacker_json : (ℕ → String) → Attacker → Value
attacker_json time_text a = obj (
    field "ip" (str a.ip) (
      field "attack_count" (num a.attack_count) (
        field "last_seen" (str (time_text a.last_seen))
          (field "risk_score" (num a.risk_score) end))))

-- The arguments are those of the queries; `not_json` is the text of an error.
module _ (db : Database) (not_json : String) where
  unfoldable pub traffic_endpoint : Bool → Bool → Bool → List Event → Reply
  unfolding get_traffic_analytics
  traffic_endpoint total_fails error_fails ip_fails rows =
      reply_of not_json traffic_json
        (get_traffic_analytics db total_fails error_fails ip_fails rows)

  module _ (delivered : Option ℕ) where
    unfoldable pub status_codes_endpoint : List Event → Reply
    unfolding get_status_code_analytics
    status_codes_endpoint rows =
        reply_of not_json (list_json status_code_json) (get_status_code_analytics db delivered rows)

    unfoldable pub top_paths_endpoint : List Event → Reply
    unfolding get_top_paths
    top_paths_endpoint rows =
        reply_of not_json (list_json top_path_json) (get_top_paths db delivered rows)

    unfoldable pub attackers_endpoint : (ℕ → String) → List Alert → Reply
    unfolding get_attackers
    attackers_endpoint time_text alerts =
        reply_of not_json (list_json (attacker_json time_text)) (get_attackers db delivered alerts)
