-- ===== src/Dashboard/Session/Keeps.antt =====
-- The handlers of frontend/src/App.jsx that leave the alerts and the API key of the page alone.
use multi_tenant_siem.Base.{◌≡◌, refl, ◌≢◌, none, some, List, [], ◌∷◌, arith}
use multi_tenant_siem.Js.{Value}
use multi_tenant_siem.Dashboard.State.{Dashboard, Browser}
use multi_tenant_siem.Dashboard.Fetch.{ok_body}
use multi_tenant_siem.Dashboard.Fetch.{
  Reply, unreachable, response, parsed, garbled, array_or_member, Captured, Stage, alerts, resume,
}
use multi_tenant_siem.Dashboard.Feed.{log_alerts}
use multi_tenant_siem.Dashboard.Counters.{
  fetch_traffic_analytics, fetch_status_code_analytics, fetch_attackers,
}
use multi_tenant_siem.Dashboard.Session.{Click, on_click}

-- Two pages with the same alerts and the same API key.
pub record SameAlerts (d d' : Dashboard) : Type 0 where
  pub alerts : d'.alerts ≡ d.alerts
  pub api_key : d'.api_key ≡ d.api_key

-- The log of a packet's alerts writes to the console alone.
pub log_alerts-SameAlerts :
    (b : Browser) (vs : List Value) (d : Dashboard) → SameAlerts d (log_alerts b vs d)
unfolding log_alerts
log_alerts-SameAlerts b [] d = ground arith
log_alerts-SameAlerts b (v ∷ vs) d =
    let h = log_alerts-SameAlerts b vs _ in record { alerts = h.alerts; api_key = h.api_key }

pub on_click-SameAlerts : (b : Browser) (c : Click) (d : Dashboard) → SameAlerts d (on_click b c d)
unfolding on_click
on_click-SameAlerts b (Click.open_tab tab) d = ground arith
on_click-SameAlerts b c d = ground arith

pub fetch_traffic_analytics-SameAlerts :
    (r : Reply) (d : Dashboard) → SameAlerts d (fetch_traffic_analytics r d)
unfolding fetch_traffic_analytics
fetch_traffic_analytics-SameAlerts r d = ground arith

pub fetch_status_code_analytics-SameAlerts :
    (r : Reply) (d : Dashboard) → SameAlerts d (fetch_status_code_analytics r d)
unfolding fetch_status_code_analytics
fetch_status_code_analytics-SameAlerts r d = ground arith

pub fetch_attackers-SameAlerts : (r : Reply) (d : Dashboard) → SameAlerts d (fetch_attackers r d)
unfolding fetch_attackers
fetch_attackers-SameAlerts r d = ground arith

-- An answer to another request than that for the alerts.
pub resume-SameAlerts :
    (b : Browser) (c : Captured) (stage : Stage) (r : Reply) (d : Dashboard)
    → stage ≢ alerts
    → SameAlerts d (resume b c stage r d).0
unfolding resume
resume-SameAlerts b c alerts r d h = absurd (h refl)
resume-SameAlerts b c stage r d h = ground arith

-- The alerts after the answer to `GET /alerts`: those of its body, if it is a success with a body
-- that parses, or else those that were there.
abbrev pub alerts_after : Reply → List Value → List Value
alerts_after r old = elim (ok_body r) [ none ↦ old | some v ↦ array_or_member "alerts" v ]

pub resume-alerts_after :
    (b : Browser) (c : Captured) (r : Reply) (d : Dashboard)
    → ((resume b c alerts r d).0.alerts ≡ alerts_after r d.alerts)
      × ((resume b c alerts r d).0.api_key ≡ d.api_key)
unfolding resume ok_body
resume-alerts_after b c (unreachable m) d = ground arith
resume-alerts_after b c (response status (garbled m)) d = ground arith
resume-alerts_after b c (response status (parsed v)) d = ground arith
