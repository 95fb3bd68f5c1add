-- ===== src/Dashboard/Views/Panels.antt =====
-- The smaller panels of frontend/src/App.jsx: the status of the components, the console, the status
-- codes, the tabs and the tenants.
use multi_tenant_siem.Base.{
  ℕ, zero, suc, ◌+◌, String, Bool, true, false, List, [], ◌∷◌, if◌then◌else◌, length, ◌%◌, includes,
  map, concat,
}
use multi_tenant_siem.Dashboard.State.{
  Dashboard, StatusSlice, Tab, overview, threat_alerts, analytics, threat_intelligence,
  infrastructure, settings,
}
use multi_tenant_siem.Dashboard.Session.{Click, open_tab}

-- The class of a line of the console: of the tests that succeed the last one counts.
unfoldable pub line_class : String → String
line_class log =
    let start : String = "text-slate-400" in
    let system = if includes log "[SYSTEM]" then "text-cyan-400" else start in
    let warned =
      if includes log "[WARN]" then "text-rose-400 font-semibold animate-pulse" else system in
    let done = if includes log "[SUCCESS]" then "text-emerald-400" else warned in
    if includes log "[SYSTEM-ACTION]" then "text-emerald-400 font-semibold" else done

-- The lines of the console with their classes.
unfoldable pub console_lines : Dashboard → List (String × String)
unfolding line_class
console_lines d = map (λ log. (log, line_class log)) d.console_logs

-- A card of the "Infrastructure" tab: its name, its state and whether its light is green.
pub record Card : Type 0 where
  pub name : String
  pub state : String
  pub note : String
  pub is_up : Bool

unfoldable pub infrastructure_cards : Dashboard → List Card
infrastructure_cards d =
    record {
      name = "INGESTION API";
      state = if d.connected then "Connected" else "Offline";
      note = "REST API | Websockets";
      is_up = d.connected;
    }
    ∷ record {
      name = "POSTGRESQL";
      state = if d.connected then "Healthy" else "N/A";
      note = "Primary DB storage";
      is_up = d.connected;
    }
    ∷ record {
      name = "KAFKA CONSUMER";
      state = if d.connected then "Listening" else "N/A";
      note = "Topic: siem-logs";
      is_up = d.connected;
    }
    ∷ []

-- `pieColors`
abbrev pub pie_colors : List String
pie_colors = "#06b6d4" ∷ "#ec4899" ∷ "#3b82f6" ∷ "#10b981" ∷ "#eab308" ∷ []

abbrev colour_at : ℕ → List String → String
colour_at i [] = "undefined"
colour_at zero (c ∷ cs) = c
colour_at (suc i) (c ∷ cs) = colour_at i cs

-- The legend of the status codes: the slices with their colours, from the index on.
unfoldable pub legend_from : ℕ → List StatusSlice → List (String × String)
legend_from i [] = []
legend_from i (slice ∷ rest) =
    (concat ("Code " ∷ slice.name ∷ []), colour_at (i % length pie_colors) pie_colors)
    ∷ legend_from (i + 1) rest

unfoldable pub status_legend : Dashboard → List (String × String)
unfolding legend_from
status_legend d = legend_from 0 d.status_code_analytics

abbrev tab_eq : Tab → Tab → Bool
tab_eq overview overview = true
tab_eq threat_alerts threat_alerts = true
tab_eq analytics analytics = true
tab_eq threat_intelligence threat_intelligence = true
tab_eq infrastructure infrastructure = true
tab_eq settings settings = true
tab_eq _ _ = false

-- An item of the side bar.
pub record Item : Type 0 where
  pub label : String
  pub is_active : Bool
  pub action : Click

abbrev item : Dashboard → String → Tab → Item
item d label tab = record {
  label = label;
  is_active = tab_eq d.active_tab tab;
  action = open_tab tab;
}

unfoldable pub side_bar : Dashboard → List Item
side_bar d =
    item d "Overview" overview
    ∷ item d "Threat Alerts" threat_alerts
    ∷ item d "Analytics" analytics
    ∷ item d "Threat Intelligence" threat_intelligence
    ∷ item d "Infrastructure" infrastructure
    ∷ item d "Settings" settings
    ∷ []
