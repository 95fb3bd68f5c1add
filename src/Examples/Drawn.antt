-- ===== src/Examples/Drawn.antt =====
-- A page that loads all its data from the server (frontend/src/App.jsx).
use multi_tenant_siem.Base.{◌≡◌, some, decimal, refl, inr, false, none, List, [], ◌∷◌, All}
use multi_tenant_siem.Js.{str, text_of}
use multi_tenant_siem.Dashboard.State.{Browser}
use multi_tenant_siem.Dashboard.Session.{on_click, Input, mount, step, open_attacker}
use multi_tenant_siem.Dashboard.Session.Tenants.{play}
use multi_tenant_siem.Dashboard.Views.Tabs.{Drawing}
use multi_tenant_siem.Dashboard.Views.Page.{Page, render}
use multi_tenant_siem.Http.Alerts.{api_keys, alerts_endpoint}
use multi_tenant_siem.Http.Analytics.Endpoints.{
  traffic_endpoint, status_codes_endpoint, top_paths_endpoint, attackers_endpoint,
}
use multi_tenant_siem.Agent.Nginx.{atoi}
use multi_tenant_siem.Live.Shown.{packet_of}
use multi_tenant_siem.Live.Typed.{IsAlert, AreOurs}
use multi_tenant_siem.Live.Data.{IsData}
use multi_tenant_siem.Live.Supplied.{AreSupplied}
use multi_tenant_siem.Live.Rendered.{IsSome}
use multi_tenant_siem.Live.Drawn.{AttackersButtons, play_drawn}
use multi_tenant_siem.Examples.Sorting.{sorted}
use multi_tenant_siem.Examples.Detectors.{raised}
use multi_tenant_siem.Examples.Requests.{rfc3339, rows, browser}
use multi_tenant_siem.Examples.Lines.{plain, scanned}
use multi_tenant_siem.Examples.Live.{ws_url}

abbrev drawing : Drawing
drawing = record { percent = λ total errors. "100"; hour_of = λ v. none; locale = plain }

-- The five answers of a run of `fetchData`, a packet, and a row of the leaderboard.
abbrev loads : List (Browser × Input)
loads =
    (
      browser,
      Input.answered 0
          (alerts_endpoint rfc3339 "no" api_keys (some 1000) rows "tenant1-secret-key"),
    )
    ∷ (browser, Input.answered 0 (traffic_endpoint sorted "no" false false false (scanned ∷ [])))
    ∷ (browser, Input.answered 0 (status_codes_endpoint sorted "no" none (scanned ∷ [])))
    ∷ (browser, Input.answered 0 (top_paths_endpoint sorted "no" none (scanned ∷ [])))
    ∷ (browser, Input.answered 0 (attackers_endpoint sorted "no" none rfc3339 rows))
    ∷ (browser, Input.packet (packet_of rfc3339 (raised ∷ [])))
    ∷ (browser, Input.click (open_attacker (str raised.source_ip)))
    ∷ []

loads-AreOurs : AreOurs rfc3339 "no" ws_url loads (mount browser ws_url)
unfolding mount step alerts_endpoint traffic_endpoint status_codes_endpoint top_paths_endpoint
    attackers_endpoint atoi decimal
loads-AreOurs = (
  inr (api_keys, some 1000, rows, refl),
  (tt, (tt, (tt, (tt, (inr (raised ∷ [], refl), (tt, tt)))))),
)

loads-AreSupplied : AreSupplied sorted rfc3339 "no" ws_url loads (mount browser ws_url)
unfolding mount step alerts_endpoint traffic_endpoint status_codes_endpoint top_paths_endpoint
    attackers_endpoint atoi decimal
loads-AreSupplied = (
  tt,
  (
    inr (false, false, false, scanned ∷ [], refl),
    (
      tt,
      (
        inr (none, scanned ∷ [], refl),
        (inr (none, rows, refl), (tt, (inr (raised.source_ip, refl), tt))),
      ),
    ),
  ),
)

play_drawn_example :
    All (IsAlert rfc3339) (play ws_url loads (mount browser ws_url)).page.alerts
    × IsData rfc3339 (play ws_url loads (mount browser ws_url)).page
    × (p : Page) × (render drawing (play ws_url loads (mount browser ws_url)).page ≡ some p)
    × AttackersButtons
        (λ c.
          IsSome
            (render drawing (on_click browser c (play ws_url loads (mount browser ws_url)).page)))
        p.tab
unfolding text_of
play_drawn_example =
    play_drawn rfc3339 drawing (λ n. (rfc3339 n, refl)) sorted "no" browser browser ws_url loads
      loads-AreOurs loads-AreSupplied
