-- ===== src/Dashboard/Session.antt =====
-- A session of the page: the state of `App`, the runs of `fetchData` that wait for an answer, and
-- the open socket, with the steps that change them (frontend/src/App.jsx: the effect on `apiKey`,
-- the handlers of the buttons, and the answers of the server and the socket).
pub mod Keeps
pub mod Tenants
pub mod Switch
pub mod Tidy
use multi_tenant_siem.Base.{
  ℕ, zero, suc, ◌+◌, ◌-◌, ◌≤◌, ◌<◌, String, ◌≡◌, refl, sym, ap, ◌∙◌, ◌≢◌, ◌↔◌, ◌⊎◌, inl, inr, Bool,
  true, false, not, ◌&&◌, ◌||◌, Option, none, some, List, [], ◌∷◌, ◌++◌, arith, ltb, leb, ◌==◌,
  str_eq, eq_iff, eq_refl, if◌then◌else◌, Bool-cases, Option-cases, length, any, keep, All, Memᴰ,
  concat,
}
use multi_tenant_siem.Js.{Value, null, truthy, member, text_of}
use multi_tenant_siem.Dashboard.State.{
  Dashboard, Browser, init, Tab, threat_alerts, threat_intelligence,
}
use multi_tenant_siem.Dashboard.Console.{trigger_toast, add_console_log, run_timers}
use multi_tenant_siem.Dashboard.Fetch.{Reply, Captured, Stage, alerts, begin_fetch, resume}
use multi_tenant_siem.Dashboard.Feed.{on_message, on_open, on_error, on_close}
use multi_tenant_siem.Dashboard.Counters.{
  fetch_traffic_analytics, fetch_status_code_analytics, fetch_attackers,
}

-- A run of `fetchData` that waits for the answer to a request.
pub record Task : Type 0 where
  pub captured : Captured
  pub stage : Stage

-- `socket_key` is the API key of the render that opened the socket.
pub record Session : Type 0 where
  pub page : Dashboard
  pub tasks : List Task
  pub socket_key : String

-- What the render at hand puts into the closure of `fetchData`.
abbrev pub capture : Dashboard → Captured
capture d = record { api_key = d.api_key; selected_attacker_ip = d.selected_attacker_ip }

-- `fetchData()` of the render at hand.
unfoldable pub start_fetch : Browser → Session → Session
unfolding begin_fetch
start_fetch b s = record s {
  page = begin_fetch b s.page;
  tasks = s.tasks ++ record { captured = capture s.page; stage = alerts } ∷ [];
}

-- The effect on `[apiKey]`: `ws_endpoint` is the text of the socket's address. Its clean-up closes
-- the old socket, whose packets are dropped from then on.
unfoldable pub run_effect : Browser → String → Session → Session
unfolding start_fetch add_console_log
run_effect b ws_endpoint s =
    let s' = start_fetch b (record s {
      page =
          add_console_log b "Initializing SentinelX console telemetry interface..." "SYSTEM" s.page;
    }) in
    record s' {
      page =
          add_console_log b
            (concat
              ("Connecting to real-time events websocket stream at " ∷ ws_endpoint ∷ "..." ∷ []))
            "SYSTEM" s'.page;
      socket_key = s.page.api_key;
    }

-- The page as it is mounted.
unfoldable pub mount : Browser → String → Session
unfolding run_effect
mount b ws_endpoint = run_effect b ws_endpoint (record { page = init; tasks = []; socket_key = "" })

-- `new WebSocket` throws: the outer `catch` of the effect.
unfoldable pub on_no_socket : Browser → Dashboard → Dashboard
unfolding add_console_log
on_no_socket b d =
    add_console_log b "Could not establish client websocket handle" "ERROR"
      (record d { connected = false })

-- The buttons of the tenants: the effect runs again if the key is another one.
unfoldable pub choose_tenant : Browser → String → Dashboard → Dashboard
unfolding trigger_toast add_console_log
choose_tenant b tenant d =
    add_console_log b (concat ("Switched tenant segment focus to " ∷ tenant ∷ [])) "SYSTEM" (
      trigger_toast b (concat ("Switched workspace to " ∷ tenant ∷ [])) "info"
        (record d { active_tenant = tenant; api_key = concat (tenant ∷ "-secret-key" ∷ []) }))

unfoldable pub switch_tenant : Browser → String → String → Session → Session
unfolding choose_tenant run_effect
switch_tenant b ws_endpoint tenant s =
    let s' = record s { page = choose_tenant b tenant s.page } in
    if str_eq s'.page.api_key s.page.api_key then s' else run_effect b ws_endpoint s'

-- The task after its answer: at its next stage, or gone.
abbrev put_task : ℕ → Option Stage → List Task → List Task
put_task i next [] = []
put_task zero none (t ∷ ts) = ts
put_task zero (some stage) (t ∷ ts) = record t { stage = stage } ∷ ts
put_task (suc i) next (t ∷ ts) = t ∷ put_task i next ts

abbrev pub task_at : ℕ → List Task → Option Task
task_at i [] = none
task_at zero (t ∷ ts) = some t
task_at (suc i) (t ∷ ts) = task_at i ts

-- The answer to the request that task `i` waits for.
unfoldable pub answer : Browser → ℕ → Reply → Session → Session
unfolding resume
answer b i r s = elim (task_at i s.tasks) [
  | none ↦ s
  | some t ↦
      let (d, next) = resume b t.captured t.stage r s.page in
      record s { page = d; tasks = put_task i next s.tasks }
]

-- `handleRemediate`
unfoldable pub handle_remediate : Browser → Value → String → Dashboard → Dashboard
unfolding trigger_toast add_console_log text_of
handle_remediate b alert action d =
    if truthy alert
    then (let ip = text_of (member "source_ip" alert) in
        record (add_console_log b
          (concat ("[REMEDIATION] Successfully applied " ∷ action ∷ " filter for IP " ∷ ip ∷ []))
          "SYSTEM-ACTION"
          (trigger_toast b
            (concat ("[REMEDIATION] Initiating action: " ∷ action ∷ " for IP " ∷ ip ∷ [])) "success"
            d)) { selected_alert = null })
    else d

-- The other buttons and fields.
pub data Click : Type 0 where
  open_tab : Tab → Click
  view_all_alerts : Click
  open_attacker select_attacker : Value → Click
  investigate : Value → Click
  close_drawer : Click
  set_severity set_search : String → Click
  clear_filters : Click
  clear_console : Click
  set_threshold set_retention : ℕ → Click
  set_webhook : String → Click
  copy_key save_configuration : Click
  remediate : Value → String → Click

unfoldable pub on_click : Browser → Click → Dashboard → Dashboard
unfolding trigger_toast add_console_log handle_remediate
on_click b (open_tab tab) d = record d { active_tab = tab }
on_click b view_all_alerts d = record d { active_tab = threat_alerts }
on_click b (open_attacker ip) d = record d {
  selected_attacker_ip = ip;
  active_tab = threat_intelligence;
}
on_click b (select_attacker ip) d = record d { selected_attacker_ip = ip }
on_click b (investigate alert) d = record d { selected_alert = alert }
on_click b close_drawer d = record d { selected_alert = null }
on_click b (set_severity sev) d = record d { filter_severity = sev }
on_click b (set_search text) d = record d { search_ip = text }
on_click b clear_filters d = record d {
  filter_severity = "ALL";
  filter_type = "ALL";
  search_ip = "";
}
on_click b clear_console d = record d { console_logs = [] }
on_click b (set_threshold n) d = record d { brute_force_threshold = n }
on_click b (set_retention n) d = record d { retention_days = n }
on_click b (set_webhook url) d = record d { slack_webhook = url }
on_click b copy_key d =
    if b.has_clipboard then trigger_toast b "Copied key to clipboard" "success" d else d
on_click b save_configuration d =
    add_console_log b "Updated active SIEM configuration values" "SYSTEM"
      (trigger_toast b "Core properties updated successfully" "success" d)
on_click b (remediate alert action) d = handle_remediate b alert action d

-- One step of the session.
pub data Input : Type 0 where
  refresh : Input
  switch : String → Input
  answered : ℕ → Reply → Input
  packet : Option Value → Input
  opened failed closed no_socket : Input
  traffic_answered status_codes_answered attackers_answered : Reply → Input
  timers_due : Input
  click : Click → Input

-- The button "Refresh Data" is disabled while `loading` is set.
unfoldable pub step : Browser → String → Input → Session → Session
unfolding start_fetch switch_tenant answer on_message on_open on_error on_close on_no_socket
    fetch_traffic_analytics fetch_status_code_analytics fetch_attackers run_timers on_click
step b ws refresh s = if s.page.loading then s else start_fetch b s
step b ws (switch tenant) s = switch_tenant b ws tenant s
step b ws (answered i r) s = answer b i r s
step b ws (packet p) s = record s { page = on_message b s.socket_key p s.page }
step b ws opened s = record s { page = on_open b s.page }
step b ws failed s = record s { page = on_error b s.page }
step b ws closed s = record s { page = on_close b s.page }
step b ws no_socket s = record s { page = on_no_socket b s.page }
step b ws (traffic_answered r) s = record s { page = fetch_traffic_analytics r s.page }
step b ws (status_codes_answered r) s = record s { page = fetch_status_code_analytics r s.page }
step b ws (attackers_answered r) s = record s { page = fetch_attackers r s.page }
step b ws timers_due s = record s { page = run_timers b.ms s.page }
step b ws (click c) s = record s { page = on_click b c s.page }
