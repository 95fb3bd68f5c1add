-- ===== src/Live/Data/Keeps.antt =====
-- The handlers of frontend/src/App.jsx and the data of the page besides the alerts.
use multi_tenant_siem.Base.{
  ℕ, String, inl, inr, Bool, true, false, Option, none, some, List, [], ◌∷◌, arith, if◌then◌else◌,
  Option-cases,
}
use multi_tenant_siem.Js.{Value}
use multi_tenant_siem.Dashboard.State.{Dashboard, Browser}
use multi_tenant_siem.Dashboard.Fetch.{Reply, ok_body}
use multi_tenant_siem.Dashboard.Feed.{merge, new_alerts, current_tenant_id, log_alerts, on_message}
use multi_tenant_siem.Dashboard.Console.{add_console_log}
use multi_tenant_siem.Dashboard.Counters.{fetch_traffic_analytics, fetch_attackers}
use multi_tenant_siem.Dashboard.Session.{
  Click, open_attacker, select_attacker, on_click, Session, start_fetch, switch_tenant,
}
use multi_tenant_siem.Live.Data.{
  IsAddress, IsData-same, Gives, IsTraffic, IsAttackers, IsData, SameData, or_else-IsTraffic,
  or_else-IsAttackers,
}

log_alerts-SameData :
    (b : Browser) (vs : List Value) (d : Dashboard) → SameData d (log_alerts b vs d)
unfolding log_alerts
log_alerts-SameData b [] d = ground arith
log_alerts-SameData b (v ∷ vs) d =
    let h = log_alerts-SameData b vs _ in
    record { traffic = h.traffic; paths = h.paths; attackers = h.attackers; selected = h.selected }

pub on_message-SameData :
    (b : Browser) (key : String) (p : Option Value) (d : Dashboard)
    → SameData d (on_message b key p d)
unfolding on_message
on_message-SameData b key none d = ground arith
on_message-SameData b key (some v) d =
    let h =
      log_alerts-SameData b (new_alerts (current_tenant_id key) v d.alerts)
        (record (add_console_log b "Received real-time event packet from websocket stream" "INFO"
          d) { alerts = merge (current_tenant_id key) v d.alerts }) in
    record { traffic = h.traffic; paths = h.paths; attackers = h.attackers; selected = h.selected }

pub refresh-SameData :
    (b : Browser) (busy : Bool) (s : Session)
    → SameData s.page (if busy then s else start_fetch b s).page
unfolding start_fetch
refresh-SameData b true s = ground arith
refresh-SameData b false s = ground arith

pub switch_tenant-SameData :
    (b : Browser) (ws tenant : String) (s : Session)
    → SameData s.page (switch_tenant b ws tenant s).page
unfolding switch_tenant
switch_tenant-SameData b ws tenant s = ground arith

-- The buttons of the attackers' rows have the address of their row.
abbrev pub IsClick : Click → Type 0
IsClick (open_attacker ip) = IsAddress ip
IsClick (select_attacker ip) = IsAddress ip
IsClick _ = Unit

module _ (time_text : ℕ → String) where
  pub on_click-IsData :
      (b : Browser) (c : Click) (d : Dashboard)
      → IsClick c
      → IsData time_text d
      → IsData time_text (on_click b c d)
  unfolding on_click
  on_click-IsData b (open_attacker ip) d a h = record {
    traffic = h.traffic;
    paths = h.paths;
    attackers = h.attackers;
    selected = a;
  }
  on_click-IsData b (select_attacker ip) d a h = record {
    traffic = h.traffic;
    paths = h.paths;
    attackers = h.attackers;
    selected = a;
  }
  on_click-IsData b c d a h = IsData-same time_text d _ (ground arith) h

  pub fetch_traffic_analytics-IsData :
      (r : Reply) (d : Dashboard)
      → Gives IsTraffic r
      → IsData time_text d
      → IsData time_text (fetch_traffic_analytics r d)
  unfolding fetch_traffic_analytics
  fetch_traffic_analytics-IsData r d a h = elim (Option-cases (ok_body r)) [
    | inl nothing ↦ rw (nothing, fetch_traffic_analytics) h
    | inr (v, e) ↦
        rw (e, fetch_traffic_analytics)
          (record {
            traffic = or_else-IsTraffic time_text v _ (a v e);
            paths = h.paths;
            attackers = h.attackers;
            selected = h.selected;
          })
  ]

  pub fetch_attackers-IsData :
      (r : Reply) (d : Dashboard)
      → Gives (IsAttackers time_text) r
      → IsData time_text d
      → IsData time_text (fetch_attackers r d)
  unfolding fetch_attackers
  fetch_attackers-IsData r d a h = elim (Option-cases (ok_body r)) [
    | inl nothing ↦ rw (nothing, fetch_attackers) h
    | inr (v, e) ↦
        rw (e, fetch_attackers)
          (record {
            traffic = h.traffic;
            paths = h.paths;
            attackers = or_else-IsAttackers time_text v _ (a v e);
            selected = h.selected;
          })
  ]
