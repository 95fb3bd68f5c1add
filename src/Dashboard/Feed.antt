-- ===== src/Dashboard/Feed.antt =====
-- The live feed of frontend/src/App.jsx: the handlers of the WebSocket, and the merge of incoming
-- alerts into the list on the page. `key` is the API key of the render that opened the socket.
pub mod Merge
use multi_tenant_siem.Base.{
  String, Bool, true, false, not, ◌&&◌, Option, none, some, List, [], ◌∷◌, ◌++◌, any, keep,
  is_empty, concat, str_eq, if◌then◌else◌,
}
use multi_tenant_siem.Js.{Value, str, as_array, truthy, or_else, member, strict_eq, text_of}
use multi_tenant_siem.Dashboard.State.{Dashboard, Browser}
use multi_tenant_siem.Dashboard.Console.{trigger_toast, add_console_log}

-- `tenantMap[apiKey] || apiKey`
unfoldable pub current_tenant_id : String → String
current_tenant_id key =
    if str_eq key "tenant1-secret-key"
    then "tenant_1"
    else if str_eq key "tenant2-secret-key"
    then "tenant_2"
    else key

-- The alerts of a packet: an array, the array `alerts` of an object, or the packet alone.
unfoldable pub incoming_alerts : Value → List Value
incoming_alerts v = elim (as_array v) [
  | some vs ↦ vs
  | none ↦
      if truthy v
      then elim (as_array (member "alerts" v)) [ some vs ↦ vs | none ↦ v ∷ [] ]
      else v ∷ []
]

-- `incoming && incoming.tenant_id === currentTenantID`
unfoldable pub belongs_to : String → Value → Bool
unfolding strict_eq
belongs_to tenant v = truthy v && strict_eq (member "tenant_id" v) (str tenant)

-- `a && a.id === incoming.id && a.created_at === incoming.created_at`
unfoldable pub same_alert : Value → Value → Bool
same_alert incoming a =
    truthy a
    && (strict_eq (member "id" a) (member "id" incoming)
        && strict_eq (member "created_at" a) (member "created_at" incoming))

-- The alerts of a packet that are the tenant's and not on the page yet.
unfoldable pub new_alerts : String → Value → List Value → List Value
unfolding incoming_alerts belongs_to same_alert
new_alerts tenant packet current =
    keep (λ incoming. not (any (same_alert incoming) current))
      (keep (belongs_to tenant) (incoming_alerts packet))

-- The updater that `onmessage` hands to `setAlerts`.
unfoldable pub merge : String → Value → List Value → List Value
unfolding new_alerts
merge tenant packet current =
    let fresh = new_alerts tenant packet current in
    if is_empty fresh then current else fresh ++ current

pub alert_line : Value → String
unfolding text_of
alert_line alert = concat (
    "[ALERT ALERT] Identified "
    ∷ text_of (or_else (member "severity" alert) (str "UNKNOWN"))
    ∷ " "
    ∷ text_of (or_else (member "alert_type" alert) (str "INCIDENT"))
    ∷ " from IP "
    ∷ text_of (or_else (member "source_ip" alert) (str "unknown"))
    ∷ [])

-- The loop over `newAlerts`.
unfoldable pub log_alerts : Browser → List Value → Dashboard → Dashboard
unfolding alert_line add_console_log
log_alerts b [] d = d
log_alerts b (alert ∷ rest) d = log_alerts b rest (add_console_log b (alert_line alert) "WARN" d)

-- `socket.onmessage`; `none` is a packet that `JSON.parse` refuses. (The requests for fresh counters
-- that end the handler are `Dashboard.Counters`.)
unfoldable pub on_message : Browser → String → Option Value → Dashboard → Dashboard
unfolding current_tenant_id merge log_alerts add_console_log
on_message b key none d = add_console_log b "Parsing incoming websocket payload failed" "ERROR" d
on_message b key (some packet) d =
    let tenant = current_tenant_id key in
    let d' = add_console_log b "Received real-time event packet from websocket stream" "INFO" d in
    log_alerts b (new_alerts tenant packet d.alerts)
      (record d' { alerts = merge tenant packet d.alerts })

-- `socket.onopen`
unfoldable pub on_open : Browser → Dashboard → Dashboard
unfolding add_console_log trigger_toast
on_open b d = trigger_toast b "WebSocket link operational" "success" (
    add_console_log b "Real-time websocket telemetry stream established" "SUCCESS"
      (record d { connected = true }))

-- `socket.onerror`
unfoldable pub on_error : Browser → Dashboard → Dashboard
unfolding add_console_log
on_error b d =
    add_console_log b "Websocket channel encountered an network error" "ERROR"
      (record d { connected = false })

-- `socket.onclose`
unfoldable pub on_close : Browser → Dashboard → Dashboard
unfolding add_console_log
on_close b d =
    add_console_log b "Websocket telemetry feed disconnected" "WARN"
      (record d { connected = false })
