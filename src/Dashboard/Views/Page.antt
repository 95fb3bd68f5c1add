-- ===== src/Dashboard/Views/Page.antt =====
-- What `App` of frontend/src/App.jsx returns: the toast, the side bar, the header, the tab that is
-- shown, and the drawer.
use multi_tenant_siem.Base.{String, Option, none, some, List}
use multi_tenant_siem.Dashboard.State.{Dashboard}
use multi_tenant_siem.Dashboard.Filters.{filtered_alerts}
use multi_tenant_siem.Dashboard.Views.Frame.{
  ToastView, toast_view, telemetry_stream, Header, header,
}
use multi_tenant_siem.Dashboard.Views.Panels.{Item, side_bar}
use multi_tenant_siem.Dashboard.Views.Drawer.{Drawer, drawer}
use multi_tenant_siem.Dashboard.Views.Attackers.{active_attacker}
use multi_tenant_siem.Dashboard.Views.Tabs.{Drawing, TabView, tab_view}

pub record Page : Type 0 where
  pub toast : Option ToastView
  pub items : List Item
  pub stream : String × String
  pub head : Header
  pub tab : TabView
  pub drawn : Option Drawer

-- One render; `none` is a TypeError or RangeError, which leaves no page. `filteredAlerts` and
-- `activeAttackerDetails` are computed whichever tab is shown.
unfoldable pub render : Drawing → Dashboard → Option Page
unfolding filtered_alerts active_attacker toast_view side_bar telemetry_stream header tab_view
    drawer
render w d = elim (filtered_alerts d) [
  | none ↦ none
  | some _ ↦ elim (active_attacker d) [
    | none ↦ none
    | some _ ↦ elim (tab_view w d) [
      | none ↦ none
      | some tab ↦ some (record {
        toast = toast_view d;
        items = side_bar d;
        stream = telemetry_stream d;
        head = header d;
        tab = tab;
        drawn = drawer w.locale d;
      })
    ]
  ]
]
