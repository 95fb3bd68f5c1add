-- ===== src/Dashboard/Views/Parts.antt =====
-- The parts of the overview and of the alerts of frontend/src/App.jsx, each with its heading and the
-- text that it shows instead of an empty list.
use multi_tenant_siem.Base.{ℕ, String, ◌⊎◌, inl, inr, Option, none, some, List, [], ◌∷◌}
use multi_tenant_siem.Js.{Value}
use multi_tenant_siem.Dashboard.State.{Dashboard, StatusSlice}
use multi_tenant_siem.Dashboard.Timeline.{Hour}
use multi_tenant_siem.Dashboard.Session.{Click, view_all_alerts, clear_filters}
use multi_tenant_siem.Dashboard.Views.Locale.{Locale}
use multi_tenant_siem.Dashboard.Views.Alerts.{FeedEntry, AlertRow, alert_feed, alert_table}
use multi_tenant_siem.Dashboard.Views.Attackers.{LeaderRow, leaderboard}
use multi_tenant_siem.Dashboard.Views.Panels.{status_legend}
use multi_tenant_siem.Dashboard.Views.Cards.{
  StatCard, overview_stats, traffic_profile, timeline_chart,
}
use multi_tenant_siem.Dashboard.Views.Controls.{Button, Field, severity_buttons, search_field}

-- A part of the page: what it shows is its content, or a text if there is none.
pub record Part (A : Type 0) : Type 0 where
  pub title : String
  pub note : String
  pub content : A ⊎ String

-- `xs.length === 0 ? text : …`
abbrev pub or_text : {A : Type 0} → String → List A → List A ⊎ String
or_text text [] = inr text
or_text text (x ∷ xs) = inl (x ∷ xs)

abbrev pub given_or : {A : Type 0} → String → Option A → A ⊎ String
given_or text none = inr text
given_or text (some x) = inl x

-- "Threat Activity Timeline"
unfoldable pub timeline_part : (Value → Option ℕ) → Dashboard → Part (List Hour)
unfolding timeline_chart
timeline_part hour_of d = record {
  title = "Threat Activity Timeline";
  note = "Aggregated warning and brute force triggers hourly";
  content = given_or "No active threat alerts recorded. Timeline idle." (timeline_chart hour_of d);
}

-- The chart, the text in its middle, and the legend, which is drawn without codes too.
unfoldable pub profile_part :
    (Value → Value → String) → Dashboard → Part (List StatusSlice × String) × List (String × String)
unfolding traffic_profile status_legend
profile_part percent d = (
  record {
    title = "Traffic Profile (HTTP)";
    note = "Access status code distribution";
    content = given_or "No HTTP codes recorded." (traffic_profile percent d);
  },
  status_legend d,
)

unfoldable pub leaders_part : Locale → Dashboard → Option (Part (List LeaderRow))
unfolding leaderboard
leaders_part l d = elim (leaderboard l d) [
  | none ↦ none
  | some rows ↦ some (record {
    title = "Risk Leaderboard";
    note = "Top attacker source IPs";
    content = or_text "No recorded threat sources." rows;
  })
]

-- The feed with its button "View All Alerts →".
unfoldable pub feed_part : Locale → Dashboard → Option (Part (List FeedEntry) × Click)
unfolding alert_feed
feed_part l d = elim (alert_feed l d) [
  | none ↦ none
  | some entries ↦ some (
    record {
      title = "Critical Alert Feed";
      note = "Real-time threat alerts streams";
      content = or_text "No active threat alerts in logs buffer." entries;
    },
    view_all_alerts,
  )
]

pub record OverviewTab : Type 0 where
  pub stats : List StatCard
  pub timeline : Part (List Hour)
  pub profile : Part (List StatusSlice × String) × List (String × String)
  pub leaders : Part (List LeaderRow)
  pub feed : Part (List FeedEntry) × Click

unfoldable pub overview_tab :
    (Value → Value → String) → (Value → Option ℕ) → Locale → Dashboard → Option OverviewTab
unfolding overview_stats timeline_part profile_part leaders_part feed_part
overview_tab percent hour_of l d = elim (overview_stats percent l d) [
  | none ↦ none
  | some stats ↦ elim (leaders_part l d) [
    | none ↦ none
    | some leaders ↦ elim (feed_part l d) [
      | none ↦ none
      | some feed ↦ some (record {
        stats = stats;
        timeline = timeline_part hour_of d;
        profile = profile_part percent d;
        leaders = leaders;
        feed = feed;
      })
    ]
  ]
]

-- The "Filters Row"
pub record Filters : Type 0 where
  pub label : String
  pub severities : List (Button Click)
  pub placeholder : String
  pub searched : Field String
  pub on_clear : Click

unfoldable pub filters_row : Dashboard → Filters
unfolding severity_buttons search_field
filters_row d = record {
  label = "Filter Severity:";
  severities = severity_buttons d;
  placeholder = "Search IP or alert info...";
  searched = search_field d;
  on_clear = clear_filters;
}

-- A table with the heads of its columns.
pub record Table (A : Type 0) : Type 0 where
  pub heads : List String
  pub rows : List A ⊎ String

pub record AlertsTab : Type 0 where
  pub filters : Filters
  pub table : Table AlertRow

unfoldable pub alerts_tab : Locale → Dashboard → Option AlertsTab
unfolding filters_row alert_table
alerts_tab l d = elim (alert_table l d) [
  | none ↦ none
  | some rows ↦ some (record {
    filters = filters_row d;
    table = record {
      heads = "Alert Type" ∷ "Severity" ∷ "Source IP" ∷ "Tenant" ∷ "Occurred At" ∷ "Action" ∷ [];
      rows = or_text "No security threat events match the specified search filters." rows;
    };
  })
]
