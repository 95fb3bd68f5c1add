-- ===== src/Examples/Shown.antt =====
-- Three lines of failed logins and the page of a client (log-agent/main.go, frontend/src/App.jsx).
use multi_tenant_siem.Base.{◌+◌, none, ℕ, ◌≡◌, refl, Bool, true, false, List, [], ◌∷◌, arith, any}
use multi_tenant_siem.Service.Json.{alert_json}
use multi_tenant_siem.Service.Worker.System.{serve}
use multi_tenant_siem.Agent.Auth.{parse_auth_log}
use multi_tenant_siem.Agent.Send.{monitor_lines}
use multi_tenant_siem.Agent.Send.ThreeLines.{nothing_sent, all_taken}
use multi_tenant_siem.Dashboard.State.{Browser}
use multi_tenant_siem.Dashboard.Feed.{current_tenant_id, same_alert}
use multi_tenant_siem.Dashboard.Session.{Input, mount}
use multi_tenant_siem.Dashboard.Session.Tenants.{play}
use multi_tenant_siem.Dashboard.Session.Tidy.{IsTidy, play-IsTidy}
use multi_tenant_siem.Dashboard.Console.{toast_ms, run_timers}
use multi_tenant_siem.Live.Page.{packets}
use multi_tenant_siem.Live.Shown.{packet_of, packets_to}
use multi_tenant_siem.Live.Lines.{happenings_of, joined, six, alert_of, third_line-shown}
use multi_tenant_siem.Examples.Requests.{rfc3339, browser}
use multi_tenant_siem.Examples.Lines.{read_at, login, parse_login, steady}
use multi_tenant_siem.Examples.Live.{ws_url}

abbrev all_there : ℕ → Bool
all_there c = true

abbrev watching : List (Browser × Input)
watching =
    (browser, Input.opened)
    ∷ (browser, Input.packet (packet_of rfc3339 (alert_of (login 3) (1, 20) ∷ [])))
    ∷ []

its_packet :
    packets watching
    ≡ packets_to rfc3339 7
        (serve steady
          (happenings_of (six (login 1) (login 2) (login 3)) false all_there)
          (joined 7)).alerts.hub.sent
unfolding serve
its_packet = refl

key_of_tenant_1 : current_tenant_id (mount browser ws_url).socket_key ≡ "tenant_1"
unfolding mount current_tenant_id
key_of_tenant_1 = refl

third_line-shown_example :
    (monitor_lines parse_auth_log (read_at 1 ∷ read_at 2 ∷ read_at 3 ∷ []) nothing_sent
      ≡ all_taken (six (login 1) (login 2) (login 3)))
    × ((serve steady
          (happenings_of (six (login 1) (login 2) (login 3)) false all_there)
          (joined 7)).alerts.stored
        ≡ alert_of (login 3) (1, 20) ∷ [])
    × (any
          (same_alert (alert_json rfc3339 (alert_of (login 3) (1, 20))))
          (play ws_url watching (mount browser ws_url)).page.alerts
        ≡ true)
third_line-shown_example =
    third_line-shown "10.0.0.7" (read_at 1) (read_at 2) (read_at 3) (login 1) (login 2) (login 3)
      false steady (1, 20) all_there 7 rfc3339 ws_url watching (mount browser ws_url) refl
      ((omega arith, omega arith, refl, omega arith), parse_login 1, refl)
      ((omega arith, omega arith, refl, omega arith), parse_login 2, refl)
      ((omega arith, omega arith, refl, omega arith), parse_login 3, refl)
      (omega arith, omega arith, omega arith, omega arith) refl refl its_packet (tt, (tt, tt))
      key_of_tenant_1

play-IsTidy_example :
    IsTidy browser.ms (play ws_url watching (mount browser ws_url)).page
    × ((run_timers (browser.ms + toast_ms) (play ws_url watching (mount browser ws_url)).page).toast
        ≡ none)
play-IsTidy_example =
    play-IsTidy browser.ms browser ws_url watching (browser.ms + toast_ms)
      (omega arith, (omega arith, tt)) (omega arith)
