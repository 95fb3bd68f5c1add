-- ===== src/Dashboard/Views/Frame.antt =====
-- The frame of the page of frontend/src/App.jsx: the toast, the status of the stream in the side bar,
-- and the header bar.
use multi_tenant_siem.Base.{String, Bool, Option, none, some, str_eq, if◌then◌else◌}
use multi_tenant_siem.Dashboard.State.{
  Dashboard, Toast, Tab, overview, threat_alerts, analytics, threat_intelligence, infrastructure,
  settings,
}

-- Which icon a toast has.
pub data Icon : Type 0 where
  check_circle alert_triangle info : Icon

-- A toast as it is shown.
pub record ToastView : Type 0 where
  pub class : String
  pub icon : Icon
  pub icon_class : String
  pub message : String

unfoldable pub toast_view_of : Toast → ToastView
toast_view_of toast =
    if str_eq toast.type "success"
    then record {
      class = "bg-emerald-950/80 border-emerald-500/30 text-emerald-300";
      icon = check_circle;
      icon_class = "text-emerald-400 shrink-0 animate-bounce";
      message = toast.message;
    }
    else if str_eq toast.type "warning"
    then record {
      class = "bg-rose-950/80 border-rose-500/30 text-rose-300";
      icon = alert_triangle;
      icon_class = "text-rose-400 shrink-0 animate-pulse";
      message = toast.message;
    }
    else record {
      class = "bg-slate-900/80 border-slate-700/50 text-cyan-300";
      icon = info;
      icon_class = "text-cyan-400 shrink-0";
      message = toast.message;
    }

-- The toast notification
unfoldable pub toast_view : Dashboard → Option ToastView
unfolding toast_view_of
toast_view d = elim d.toast [ none ↦ none | some toast ↦ some (toast_view_of toast) ]

-- `SidebarItem`: the classes of the button and of its icon.
unfoldable pub sidebar_item_class : Bool → String × String
sidebar_item_class active =
    if active
    then (
      "bg-gradient-to-r from-cyan-500/20 to-pink-500/10 border-cyan-500/30 text-white shadow-lg shadow-cyan-500/10 font-semibold",
      "text-cyan-400",
    )
    else (
      "border-transparent hover:bg-slate-800/50 text-slate-400 hover:text-white", "text-slate-400",
    )

-- "TELEMETRY STREAM": the class of the light and the text.
unfoldable pub telemetry_stream : Dashboard → String × String
telemetry_stream d =
    if d.connected
    then ("bg-cyan-400 animate-ping", "Monitoring real-time client HTTP & SSH log streams.")
    else ("bg-red-500", "Websocket link is currently down.")

-- `{activeTab}`
abbrev pub tab_name : Tab → String
tab_name overview = "Overview"
tab_name threat_alerts = "Threat Alerts"
tab_name analytics = "Analytics"
tab_name threat_intelligence = "Threat Intelligence"
tab_name infrastructure = "Infrastructure"
tab_name settings = "Settings"

-- The header bar
pub record Header : Type 0 where
  pub tab : String
  pub refresh_disabled : Bool
  pub refresh_class : String
  pub stream_class : String
  pub stream_icon_class : String
  pub stream_text : String

unfoldable pub header : Dashboard → Header
header d = record {
  tab = tab_name d.active_tab;
  refresh_disabled = d.loading;
  refresh_class = if d.loading then "animate-spin" else "";
  stream_class =
      if d.connected
      then "bg-emerald-500/10 text-emerald-400 border-emerald-500/25 shadow-lg shadow-emerald-500/5"
      else "bg-rose-500/10 text-rose-400 border-rose-500/25";
  stream_icon_class = if d.connected then "animate-pulse" else "";
  stream_text = if d.connected then "LIVE STREAM ACTIVE" else "LIVE FEED DOWN";
}
