-- ===== src/Live/Drawn.antt =====
-- A page with data of ingestion-service only is drawn: `App` of frontend/src/App.jsx throws nothing.
use multi_tenant_siem.Base.{ℕ, String, ◌≡◌, refl, ◌⊎◌, inl, inr, Option, some, List, [], ◌∷◌, All}
use multi_tenant_siem.Js.{str}
use multi_tenant_siem.Dashboard.State.{
  Dashboard, Browser, Tab, overview, threat_alerts, analytics, threat_intelligence, infrastructure,
  settings,
}
use multi_tenant_siem.Dashboard.Session.{Click, on_click, Input, mount}
use multi_tenant_siem.Dashboard.Session.Tenants.{play}
use multi_tenant_siem.Dashboard.Views.Parts.{
  or_text, OverviewTab, leaders_part, feed_part, overview_tab, alerts_tab,
}
use multi_tenant_siem.Dashboard.Views.Tabs.{
  TabView, overview_view, alerts_view, analytics_view, intelligence_view, infrastructure_view,
  settings_view, IntelligenceTab, bars_part, analytics_tab, intelligence_tab, Drawing, map_some,
  view_of, tab_view,
}
use multi_tenant_siem.Dashboard.Views.Page.{Page, render}
use multi_tenant_siem.Http.Groups.{Database}
use multi_tenant_siem.Live.Typed.{IsAlert, AreOurs, play-IsAlert}
use multi_tenant_siem.Live.Data.{IsData}
use multi_tenant_siem.Live.Data.Keeps.{IsClick, on_click-IsData}
use multi_tenant_siem.Dashboard.Session.Keeps.{on_click-SameAlerts}
use multi_tenant_siem.Dashboard.Views.Attackers.{LeaderRow, SourceRow}
use multi_tenant_siem.Live.Supplied.{AreSupplied, play-IsData}
use multi_tenant_siem.Live.Rendered.{All-map, IsSome, alerts-IsSome, filtered_alerts-IsAlert}
use multi_tenant_siem.Live.Panels.{
  overview_stats-IsSome, top_metrics-IsSome, path_bars-IsSome, path_table-IsSome,
  leaderboard-IsClick, attacker_sources-IsClick, active_attacker-IsSome, dossier_panel-IsDrawn,
}

map_some-IsSome : {A B : Type 0} (f : A → B) (o : Option A) → IsSome o → IsSome (map_some f o)
map_some-IsSome f o (x, e) = (f x, rw e refl)

abbrev rows_of : {A : Type 0} → List A ⊎ String → List A
rows_of (inl rows) = rows
rows_of (inr text) = []

-- The rows of attackers that a tab shows.
abbrev pub AttackersButtons : (Click → Type 0) → TabView → Type 0
AttackersButtons P (overview_view t) =
    All (λ (row : LeaderRow). P row.action) (rows_of t.leaders.content)
AttackersButtons P (intelligence_view t) =
    All (λ (row : SourceRow). P row.action) (rows_of t.sources.content)
AttackersButtons P _ = Unit

or_text-All :
    {A : Type 0} (P : A → Type 0) (text : String) (rows : List A)
    → All P rows
    → All P (rows_of (or_text text rows))
or_text-All P text [] h = tt
or_text-All P text (row ∷ rows) h = h

AttackersButtons-map :
    (P Q : Click → Type 0) (t : TabView)
    → ((c : Click) → P c → Q c)
    → AttackersButtons P t
    → AttackersButtons Q t
AttackersButtons-map P Q (overview_view t) f h =
    All-map (λ (row : LeaderRow). P row.action) (λ (row : LeaderRow). Q row.action)
      (λ (row : LeaderRow). f row.action) (rows_of t.leaders.content) h
AttackersButtons-map P Q (intelligence_view t) f h =
    All-map (λ (row : SourceRow). P row.action) (λ (row : SourceRow). Q row.action)
      (λ (row : SourceRow). f row.action) (rows_of t.sources.content) h
AttackersButtons-map P Q (alerts_view t) f h = tt
AttackersButtons-map P Q (analytics_view t) f h = tt
AttackersButtons-map P Q (infrastructure_view t) f h = tt
AttackersButtons-map P Q (settings_view t) f h = tt

module _ (time_text : ℕ → String) (w : Drawing)
    (dated : (n : ℕ) → IsSome (w.locale.iso_text (str (time_text n)))) where
  -- A page whose values are the server's.
  module _ (d : Dashboard) (h : IsData time_text d) (typed : All (IsAlert time_text) d.alerts) where
    overview_tab-IsClick :
        (t : OverviewTab) × (overview_tab w.percent w.hour_of w.locale d ≡ some t)
        × All (λ (row : LeaderRow). IsClick row.action) (rows_of t.leaders.content)
    unfolding overview_tab leaders_part feed_part
    overview_tab-IsClick =
        let (stats, e) = overview_stats-IsSome w.percent w.locale d h.traffic in
        let (leaders, f, q) = leaderboard-IsClick time_text w.locale d h.attackers in
        let (feed, g) = (alerts-IsSome time_text w.locale d typed).0 in
        rw (e, f, g, overview_tab)
          (_, refl, or_text-All (λ (row : LeaderRow). IsClick row.action) _ leaders q)

    alerts_tab-IsSome : IsSome (alerts_tab w.locale d)
    unfolding alerts_tab
    alerts_tab-IsSome =
        let (rows, e) = (alerts-IsSome time_text w.locale d typed).1 in rw (e, alerts_tab) (_, refl)

    analytics_tab-IsSome : IsSome (analytics_tab w.hour_of w.locale d)
    unfolding analytics_tab bars_part
    analytics_tab-IsSome =
        let (metrics, e) = top_metrics-IsSome w.locale d h.traffic in
        let (drawn, f) = path_bars-IsSome d h.paths in
        let (rows, g) = path_table-IsSome w.locale d h.paths in
        rw (e, f, g, analytics_tab) (_, refl)

    intelligence_tab-IsClick :
        (t : IntelligenceTab) × (intelligence_tab w.locale d ≡ some t)
        × All (λ (row : SourceRow). IsClick row.action) (rows_of t.sources.content)
    unfolding intelligence_tab
    intelligence_tab-IsClick =
        let (rows, e, q) = attacker_sources-IsClick time_text w.locale d h.attackers in
        let leads = or_text-All (λ (row : SourceRow). IsClick row.action) _ rows q in
        elim (dossier_panel-IsDrawn time_text w.locale dated d h.attackers h.selected) [
          | inl nobody ↦ rw (e, nobody, intelligence_tab) (_, refl, leads)
          | inr (x, f) ↦ rw (e, f, intelligence_tab) (_, refl, leads)
        ]

    view_of-IsClick :
        (tab : Tab) → (t : TabView) × (view_of w d tab ≡ some t) × AttackersButtons IsClick t
    view_of-IsClick overview =
        let (t, e, q) = overview_tab-IsClick in (overview_view t, rw e refl, q)
    view_of-IsClick threat_intelligence =
        let (t, e, q) = intelligence_tab-IsClick in (intelligence_view t, rw e refl, q)
    view_of-IsClick threat_alerts = let (t, e) = alerts_tab-IsSome in (alerts_view t, rw e refl, tt)
    view_of-IsClick analytics =
        let (t, e) = analytics_tab-IsSome in (analytics_view t, rw e refl, tt)
    view_of-IsClick infrastructure = (_, refl, tt)
    view_of-IsClick settings = (_, refl, tt)

    render-IsClick : (p : Page) × (render w d ≡ some p) × AttackersButtons IsClick p.tab
    unfolding render tab_view
    render-IsClick =
        let (shown, e, kept) = filtered_alerts-IsAlert time_text d typed in
        let (found, f, q) = active_attacker-IsSome time_text d h.attackers in
        let (tab, g, leads) = view_of-IsClick d.active_tab in rw (e, f, g, render) (_, refl, leads)

  on_click-IsSome :
      (b : Browser) (c : Click) (d : Dashboard)
      → IsData time_text d
      → All (IsAlert time_text) d.alerts
      → IsClick c
      → IsSome (render w (on_click b c d))
  on_click-IsSome b c d h typed leads =
      let alerts = (on_click-SameAlerts b c d).alerts in
      let (p, e, q) =
        render-IsClick (on_click b c d) (on_click-IsData time_text b c d leads h)
          (rw alerts typed) in
      (p, e)

  -- From the mounted page on, in every run in which each answer to a request for alerts, traffic, paths
  -- or attackers is the server's or a network error, the packets of the socket are the hub's or do not
  -- parse, and the buttons of attackers have an address, whatever else the user and the other answers
  -- do, and if `toISOString` reads the times of the server: the alerts, the traffic, the paths and the
  -- attackers of the page are values of the kinds that the server sends; `App` renders without a
  -- TypeError or RangeError, whichever tab is open; and after a click on any row of attackers of this
  -- page it renders again.
  pub play_drawn :
      (db : Database) (not_json : String) (b next : Browser) (ws : String)
      (inputs : List (Browser × Input))
      → AreOurs time_text not_json ws inputs (mount b ws)
      → AreSupplied db time_text not_json ws inputs (mount b ws)
      → All (IsAlert time_text) (play ws inputs (mount b ws)).page.alerts
        × IsData time_text (play ws inputs (mount b ws)).page
        × (p : Page) × (render w (play ws inputs (mount b ws)).page ≡ some p)
        × AttackersButtons
            (λ c. IsSome (render w (on_click next c (play ws inputs (mount b ws)).page)))
            p.tab
  unfolding mount
  play_drawn db not_json b next ws inputs ours supplied =
      let page = (play ws inputs (mount b ws)).page in
      let typed = play-IsAlert time_text not_json ws inputs (mount b ws) ours tt in
      let h = play-IsData db time_text not_json ws inputs (mount b ws) supplied (record {
        traffic = (record { total_requests = 0; error_requests = 0; unique_ips = 0 }, refl);
        paths = tt;
        attackers = ([], refl);
        selected = inl refl;
      }) in
      let (p, e, leads) = render-IsClick page h typed in
      let again = λ (c : Click) (q : IsClick c). on_click-IsSome next c page h typed q in
      (
        typed,
        h,
        p,
        e,
        AttackersButtons-map IsClick (λ c. IsSome (render w (on_click next c page))) p.tab again
            leads,
      )
