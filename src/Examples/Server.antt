-- ===== src/Examples/Server.antt =====
-- Requests through the middleware (ingestion-service/cmd/server/main.go).
use multi_tenant_siem.Base.{ℕ, String, ◌≡◌, ◌≢◌, refl, false, none, some, [], ◌∷◌, if◌then◌else◌}
use multi_tenant_siem.Detection.Model.{Event}
use multi_tenant_siem.Dashboard.Fetch.{response, garbled}
use multi_tenant_siem.Http.Alerts.{api_keys, alerts_endpoint}
use multi_tenant_siem.Http.RateLimit.{rate_limit}
use multi_tenant_siem.Http.Middleware.{Request, World, answered}
use multi_tenant_siem.Http.Server
use multi_tenant_siem.Http.Server.{Route, route, Reading, final_handler}
use multi_tenant_siem.Http.Server.Keys.{final_handler_ignores_key, final_handler_alerts}
use multi_tenant_siem.Examples.Sorting.{sorted}
use multi_tenant_siem.Examples.Detectors.{failure, raised}

abbrev rfc3339 : ℕ → String
rfc3339 t = "2026-05-01T10:00:00Z"

abbrev reading : Reading
reading = record {
  now = 1000;
  new_id = "20260501100000-x";
  logs_table = failure ∷ [];
  alerts_table = raised ∷ [];
  alerts_delivered = some 1000;
  total_fails = false;
  error_fails = false;
  ip_fails = false;
  delivered = some 5;
}

abbrev fresh : World
fresh = record { queue = []; clients = []; lines = [] }

abbrev dated : Event
dated = record failure { timestamp = 5 }

abbrev post_log : Request
post_log = record {
  method = "POST";
  path = "/logs";
  remote_addr = "10.0.0.1:5000";
  api_key = "";
  body = some dated;
  tenant = "";
  request_id = "";
}

abbrev list_alerts : Request
list_alerts = record post_log {
  method = "GET";
  path = "/alerts";
  api_key = "tenant1-secret-key";
  body = none;
}

logs_ne_alerts : route "/logs" ≢ Server.alerts
unfolding route
logs_ne_alerts = cc

final_handler_ignores_key_example :
    final_handler sorted rfc3339 "<" api_keys reading
      (record post_log { api_key = "wrong" })
      []
      fresh
    ≡ final_handler sorted rfc3339 "<" api_keys reading post_log [] fresh
final_handler_ignores_key_example =
    final_handler_ignores_key sorted rfc3339 "<" api_keys reading post_log "wrong" [] fresh
      logs_ne_alerts

final_handler_alerts_example :
    (final_handler sorted rfc3339 "<" api_keys reading list_alerts [] fresh).answer
    ≡ answered (
        if (rate_limit 1000 "10.0.0.1:5000" []).1
        then alerts_endpoint rfc3339 "<" api_keys (some 1000) (raised ∷ []) "tenant1-secret-key"
        else response 429 (garbled "<"))
final_handler_alerts_example =
    final_handler_alerts sorted rfc3339 "<" api_keys reading list_alerts [] fresh
      (unfold route in refl) refl

-- The log without a key is in the queue.
log_queued :
    (final_handler sorted rfc3339 "<" api_keys reading post_log [] fresh).world.queue ≡ dated ∷ []
unfolding final_handler
log_queued = refl
