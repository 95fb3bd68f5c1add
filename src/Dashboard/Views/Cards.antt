-- ===== src/Dashboard/Views/Cards.antt =====
-- The numbers and charts of frontend/src/App.jsx: `StatCard`, `successRate`, the statistics of the
-- overview and of the analytics tab, and what the charts are given.
use multi_tenant_siem.Base.{
  ℕ, String, Option, none, some, List, [], ◌∷◌, if◌then◌else◌, is_empty, concat, str_eq,
}
use multi_tenant_siem.Js.{Value, truthy, member}
use multi_tenant_siem.Dashboard.State.{Dashboard, StatusSlice, Tab}
use multi_tenant_siem.Dashboard.Timeline.{Hour, analytics_data}
use multi_tenant_siem.Dashboard.Views.Frame.{tab_name}
use multi_tenant_siem.Dashboard.Views.Locale.{Locale, locale_number}

-- `StatCard`, with the text of its badge if it has a trend.
pub record StatCard : Type 0 where
  pub title : String
  pub value : String
  pub glow : String
  pub trend : Option String

abbrev stat_card : String → String → String → StatCard
stat_card title value glow = record { title = title; value = value; glow = glow; trend = none }

-- `percent total errors` is `Math.round(((total - errors) / total) * 100)` as text, in the floating
-- point arithmetic of the browser.
module _ (percent : Value → Value → String) where
  -- `successRate`
  unfoldable pub success_rate : Value → String
  success_rate traffic =
      let total = member "total_requests" traffic in
      if truthy total then percent total (member "error_requests" traffic) else "100"

  -- The "Stats Grid" of the overview
  unfoldable pub overview_stats : Locale → Dashboard → Option (List StatCard)
  unfolding success_rate
  overview_stats l d =
      let traffic = d.traffic_analytics in
      elim (locale_number l (member "total_requests" traffic)) [
        | none ↦ none
        | some total ↦ elim (locale_number l (member "error_requests" traffic)) [
          | none ↦ none
          | some errors ↦ elim (locale_number l (member "unique_ips" traffic)) [
            | none ↦ none
            | some ips ↦ some (
                stat_card "Ingested Logs (HTTP)" total "shadow-cyan-500/5"
                ∷ stat_card "Warning/Error Logs" errors "shadow-pink-500/5"
                ∷ stat_card "Unique Source IPs" ips "shadow-blue-500/5"
                ∷ stat_card "Request Success Rate" (concat (success_rate traffic ∷ "%" ∷ []))
                    "shadow-emerald-500/5"
                ∷ [])
          ]
        ]
      ]

  -- "Traffic Profile (HTTP)": the slices and the text in the middle; `none` is the text for no codes.
  unfoldable pub traffic_profile : Dashboard → Option (List StatusSlice × String)
  unfolding success_rate
  traffic_profile d =
      if is_empty d.status_code_analytics
      then none
      else some (d.status_code_analytics, concat (success_rate d.traffic_analytics ∷ "%" ∷ []))

-- The "Top Metrics Row" of the analytics tab
unfoldable pub top_metrics : Locale → Dashboard → Option (List (String × String))
top_metrics l d = elim (locale_number l (member "total_requests" d.traffic_analytics)) [
  | none ↦ none
  | some total ↦ elim (locale_number l (member "error_requests" d.traffic_analytics)) [
    | none ↦ none
    | some errors ↦ some (
        ("Pipeline Logs", total)
        ∷ ("Active Warnings", errors)
        ∷ ("Active Link", if d.connected then "Operational" else "API Node")
        ∷ [])
  ]
]

-- The two charts over `analyticsData`; `none` is the text for no records.
unfoldable pub timeline_chart : (Value → Option ℕ) → Dashboard → Option (List Hour)
unfolding analytics_data
timeline_chart hour_of d =
    let points = analytics_data hour_of d.alerts in if is_empty points then none else some points

-- The panel of a tab.
pub data Screen : Type 0 where
  overview_screen alerts_screen analytics_screen intelligence_screen : Screen
  infrastructure_screen settings_screen : Screen

-- The screens whose test `activeTab === …` succeeds, in the order of the page.
unfoldable pub screens : Tab → List Screen
screens tab =
    let name = tab_name tab in
    let shown = λ (label : String) (screen : Screen) (rest : List Screen).
      if str_eq name label then screen ∷ rest else rest in
    shown "Overview" overview_screen (
      shown "Threat Alerts" alerts_screen (
        shown "Analytics" analytics_screen (
          shown "Threat Intelligence" intelligence_screen
            (shown "Infrastructure" infrastructure_screen (shown "Settings" settings_screen [])))))
