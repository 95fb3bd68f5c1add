-- ===== src/Dashboard/Views/Tabs.antt =====
-- The other tabs of frontend/src/App.jsx, and the tab that is shown.
use multi_tenant_siem.Base.{take, ℕ, String, ◌⊎◌, inl, inr, Option, none, some, List, [], ◌∷◌}
use multi_tenant_siem.Js.{Value, member}
use multi_tenant_siem.Dashboard.State.{
  Dashboard, Tab, overview, threat_alerts, analytics, threat_intelligence, infrastructure, settings,
}
use multi_tenant_siem.Dashboard.Timeline.{Hour}
use multi_tenant_siem.Dashboard.Session.{Click, Input, clear_console, copy_key, save_configuration}
use multi_tenant_siem.Dashboard.Views.Locale.{Locale}
use multi_tenant_siem.Dashboard.Views.Paths.{PathRow, path_bars, path_table}
use multi_tenant_siem.Dashboard.Views.Attackers.{
  SourceRow, Dossier, placeholder, dossier, failed, attacker_sources, dossier_panel,
}
use multi_tenant_siem.Dashboard.Views.Panels.{Card, infrastructure_cards, console_lines}
use multi_tenant_siem.Dashboard.Views.Cards.{top_metrics, timeline_chart}
use multi_tenant_siem.Dashboard.Views.Controls.{Button, tenant_buttons, Settings, settings_panel}
use multi_tenant_siem.Dashboard.Views.Parts.{
  Part, or_text, given_or, Table, OverviewTab, overview_tab, AlertsTab, alerts_tab,
}

-- "Traffic Volume Stream"
unfoldable pub volume_part : (Value → Option ℕ) → Dashboard → Part (List Hour)
unfolding timeline_chart
volume_part hour_of d = record {
  title = "Traffic Volume Stream";
  note = "";
  content = given_or "No activity records found." (timeline_chart hour_of d);
}

-- The bars with their paths, counts and colours.
abbrev pub bars : List Value → List String → List (Value × Value × String)
bars [] colours = []
bars (v ∷ vs) [] = []
bars (v ∷ vs) (c ∷ colours) = (member "path" v, member "count" v, c) ∷ bars vs colours

-- "Resource Access Paths": the bars, each with its path and its colour.
unfoldable pub bars_part : Dashboard → Option (Part (List (Value × Value × String)))
unfolding path_bars
bars_part d = elim (path_bars d) [
  | none ↦ none
  | some colours ↦ some (record {
    title = "Resource Access Paths";
    note = "";
    content = or_text "No accessed paths logged." (bars (take 6 d.top_paths) colours);
  })
]

pub record AnalyticsTab : Type 0 where
  pub metrics : List (String × String)
  pub volume : Part (List Hour)
  pub bars : Part (List (Value × Value × String))
  pub table_title : String
  pub table : Table PathRow

unfoldable pub analytics_tab : (Value → Option ℕ) → Locale → Dashboard → Option AnalyticsTab
unfolding top_metrics volume_part bars_part path_table
analytics_tab hour_of l d = elim (top_metrics l d) [
  | none ↦ none
  | some metrics ↦ elim (bars_part d) [
    | none ↦ none
    | some drawn ↦ elim (path_table l d) [
      | none ↦ none
      | some rows ↦ some (record {
        metrics = metrics;
        volume = volume_part hour_of d;
        bars = drawn;
        table_title = "Ingested Resource Table";
        table = record {
          heads = "Endpoint Path" ∷ "Access Hit Count" ∷ "Security Risk Class" ∷ [];
          rows = or_text "No path assets found in telemetry." rows;
        };
      })
    ]
  ]
]

pub record IntelligenceTab : Type 0 where
  pub sources : Part (List SourceRow)
  pub details : Dossier ⊎ String

unfoldable pub intelligence_tab : Locale → Dashboard → Option IntelligenceTab
unfolding attacker_sources dossier_panel
intelligence_tab l d = elim (attacker_sources l d) [
  | none ↦ none
  | some rows ↦
      let sources : Part (List SourceRow) = record {
        title = "Attacker Sources";
        note = "Select host IP to retrieve intelligence dossier";
        content = or_text "No active host sources identified." rows;
      } in
      elim (dossier_panel l d) [
        | failed ↦ none
        | placeholder ↦ some (record {
          sources = sources;
          details =
              inr
                "Select an active attacker IP from the leaderboard to retrieve correlation dossier.";
        })
        | dossier shown ↦ some (record { sources = sources; details = inl shown })
      ]
]

pub record InfrastructureTab : Type 0 where
  pub nodes : List Card
  pub console : Part (List (String × String))
  pub on_clear : Click

unfoldable pub infrastructure_tab : Dashboard → InfrastructureTab
unfolding infrastructure_cards console_lines
infrastructure_tab d = record {
  nodes = infrastructure_cards d;
  console = record {
    title = "Client Action & Event Console";
    note = "";
    content = or_text "Console active. Telemetry event logs print here..." (console_lines d);
  };
  on_clear = clear_console;
}

pub record SettingsTab : Type 0 where
  pub title : String
  pub note : String
  pub tenants_label : String
  pub tenants : List (Button Input)
  pub fields : Settings
  pub on_copy : Click
  pub on_save : Click

unfoldable pub settings_tab : Dashboard → SettingsTab
unfolding tenant_buttons settings_panel
settings_tab d = record {
  title = "SIEM Core Properties";
  note = "Configure threat parameters and client keys";
  tenants_label = "Active Tenant Segment";
  tenants = tenant_buttons d;
  fields = settings_panel d;
  on_copy = copy_key;
  on_save = save_configuration;
}

pub data TabView : Type 0 where
  overview_view : OverviewTab → TabView
  alerts_view : AlertsTab → TabView
  analytics_view : AnalyticsTab → TabView
  intelligence_view : IntelligenceTab → TabView
  infrastructure_view : InfrastructureTab → TabView
  settings_view : SettingsTab → TabView

-- What browser and locale give: the text of the success rate, the hour of a time, and the locale.
pub record Drawing : Type 0 where
  pub percent : Value → Value → String
  pub hour_of : Value → Option ℕ
  pub locale : Locale

abbrev pub map_some : {A B : Type 0} → (A → B) → Option A → Option B
map_some f none = none
map_some f (some x) = some (f x)

-- "Active Tab Page Render"
abbrev pub view_of : Drawing → Dashboard → Tab → Option TabView
view_of w d overview = map_some overview_view (overview_tab w.percent w.hour_of w.locale d)
view_of w d threat_alerts = map_some alerts_view (alerts_tab w.locale d)
view_of w d analytics = map_some analytics_view (analytics_tab w.hour_of w.locale d)
view_of w d threat_intelligence = map_some intelligence_view (intelligence_tab w.locale d)
view_of w d infrastructure = some (infrastructure_view (infrastructure_tab d))
view_of w d settings = some (settings_view (settings_tab d))

unfoldable pub tab_view : Drawing → Dashboard → Option TabView
unfolding overview_tab alerts_tab analytics_tab intelligence_tab infrastructure_tab settings_tab
tab_view w d = view_of w d d.active_tab
