-- ===== src/Agent/Traffic/Shown.antt =====
-- From the lines that log-agent reads to the cards of frontend/src/App.jsx.
use multi_tenant_siem.Base.{
  String, ◌≡◌, ap, false, none, some, List, [], ◌∷◌, All, concat, length, if◌then◌else◌,
}
use multi_tenant_siem.Js.{Value, num, truthy}
use multi_tenant_siem.Detection.Model.{Event}
use multi_tenant_siem.Dashboard.State.{Dashboard}
use multi_tenant_siem.Dashboard.Counters.{fetch_traffic_analytics}
use multi_tenant_siem.Dashboard.Fetch.{ok_body}
use multi_tenant_siem.Dashboard.Views.Locale.{Locale}
use multi_tenant_siem.Dashboard.Views.Cards.{overview_stats, success_rate}
use multi_tenant_siem.Http.Groups.{Database}
use multi_tenant_siem.Http.Analytics.{nginx_rows}
use multi_tenant_siem.Http.Analytics.Endpoints.{traffic_endpoint, traffic_json, reply_of}
use multi_tenant_siem.Agent.Traffic.{IsFromAgent, traffic_of_agent}

-- A page that has asked for the traffic shows no errors and no addresses, whatever requests the agent
-- has seen: of the four cards only the number of requests and, where the browser's arithmetic gives a
-- rate for it, the success rate can change.
pub cards_of_agent :
    (percent : Value → Value → String) (l : Locale) (db : Database) (not_json : String)
    (rows : List Event) (d : Dashboard)
    → All IsFromAgent rows
    → let total = num (length (nginx_rows rows)) in
      overview_stats percent l
        (fetch_traffic_analytics (traffic_endpoint db not_json false false false rows) d)
      ≡ some (
          record {
            title = "Ingested Logs (HTTP)";
            value = l.number_text total;
            glow = "shadow-cyan-500/5";
            trend = none;
          }
          ∷ record {
            title = "Warning/Error Logs";
            value = l.number_text (num 0);
            glow = "shadow-pink-500/5";
            trend = none;
          }
          ∷ record {
            title = "Unique Source IPs";
            value = l.number_text (num 0);
            glow = "shadow-blue-500/5";
            trend = none;
          }
          ∷ record {
            title = "Request Success Rate";
            value = concat ((if truthy total then percent total (num 0) else "100") ∷ "%" ∷ []);
            glow = "shadow-emerald-500/5";
            trend = none;
          }
          ∷ [])
unfolding overview_stats success_rate fetch_traffic_analytics traffic_endpoint ok_body
cards_of_agent percent l db not_json rows d h =
    ap
      (λ o. overview_stats percent l (fetch_traffic_analytics (reply_of not_json traffic_json o) d))
      (traffic_of_agent db rows h)
