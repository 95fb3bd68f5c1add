-- ===== src/Examples/Live.antt =====
-- The worker, the hub and the page together (ingestion-service/internal, frontend/src/App.jsx).
use multi_tenant_siem.Base.{
  ℕ, String, ◌≡◌, refl, Bool, true, false, some, List, [], ◌∷◌, arith, any, Memᴰ,
}
use multi_tenant_siem.Detection.Model.{Alert}
use multi_tenant_siem.Service.Hub.{Hub, new_hub}
use multi_tenant_siem.Service.Hub.Delivery.{Op, say, tick, apply}
use multi_tenant_siem.Service.Hub.Unordered.{
  Same, Runs, ends, goes, view, run_view, messages, messages_view, waiting_view, run_view_lem,
}
use multi_tenant_siem.Service.Json.{alert_json}
use multi_tenant_siem.Service.Worker.System.{serve}
use multi_tenant_siem.Detection.Store.{get}
use multi_tenant_siem.Dashboard.State.{Browser, init}
use multi_tenant_siem.Dashboard.Fetch
use multi_tenant_siem.Dashboard.Feed.{same_alert, current_tenant_id}
use multi_tenant_siem.Dashboard.Session.{Session, Task, Input, mount, step, task_at}
use multi_tenant_siem.Dashboard.Session.Tenants.{play}
use multi_tenant_siem.Http.Alerts.{api_keys, alerts_endpoint}
use multi_tenant_siem.Live.Page.{packets}
use multi_tenant_siem.Live.Shown.{packet_of, packets_to, live_shown}
use multi_tenant_siem.Live.Stale.{stale_answer}
use multi_tenant_siem.Examples.Detectors.{raised}
use multi_tenant_siem.Examples.Services.{
  moments, happenings, one_listens, happenings_remain, other_alert,
}
use multi_tenant_siem.Examples.Requests.{rfc3339, rows, browser}

abbrev stored : Alert
stored = record raised { id = 4; created_at = 4 }

abbrev pub ws_url : String
ws_url = "ws://localhost:8080/ws"

abbrev opened_page : Session
opened_page = mount browser ws_url

-- The socket opens, the packet of the hub comes, and the alert is looked at.
abbrev live_inputs : List (Browser × Input)
live_inputs =
    (browser, Input.opened)
    ∷ (browser, Input.packet (packet_of rfc3339 (stored ∷ [])))
    ∷ (browser, Input.refresh)
    ∷ []

all_sent : (serve moments happenings one_listens).alerts.hub.batch ≡ []
unfolding serve
all_sent = refl

its_packets :
    packets live_inputs
    ≡ packets_to rfc3339 7 (serve moments happenings one_listens).alerts.hub.sent
unfolding serve
its_packets = refl

is_stored : Memᴰ stored (serve moments happenings one_listens).alerts.stored
unfolding serve
is_stored = Memᴰ.head refl

is_tenants : stored.tenant_id ≡ current_tenant_id opened_page.socket_key
unfolding mount current_tenant_id
is_tenants = refl

live_shown_example :
    any (same_alert (alert_json rfc3339 stored)) (play ws_url live_inputs opened_page).page.alerts
    ≡ true
live_shown_example =
    live_shown rfc3339 7 [] moments happenings one_listens ws_url live_inputs opened_page stored
      happenings_remain (refl, refl, refl, refl) all_sent its_packets (tt, (tt, (tt, tt))) is_stored
      is_tenants

-- The first run of `fetchData`, which waits for the answer to GET /alerts.
abbrev first_task : Task
first_task = record {
  captured = record {
    api_key = "tenant1-secret-key";
    selected_attacker_ip = init.selected_attacker_ip;
  };
  stage = Fetch.alerts;
}

waits : task_at 0 opened_page.tasks ≡ some first_task
unfolding mount
waits = refl

known_key : get "tenant1-secret-key" api_keys ≡ some "tenant_1"
unfolding get
known_key = refl

stale_answer_example :
    (any
        (same_alert (alert_json rfc3339 stored))
        (step browser ws_url
          (Input.packet (packet_of rfc3339 (stored ∷ [])))
          opened_page).page.alerts
      ≡ true)
    × (any
          (same_alert (alert_json rfc3339 stored))
          (step browser ws_url
            (Input.answered 0 (
              alerts_endpoint rfc3339 "unauthorized" api_keys
                (some 1000)
                rows
                "tenant1-secret-key"))
            (step browser ws_url
              (Input.packet (packet_of rfc3339 (stored ∷ [])))
              opened_page)).page.alerts
        ≡ false)
stale_answer_example =
    stale_answer rfc3339 browser browser ws_url "unauthorized" api_keys (stored ∷ []) rows stored
      1000 0 first_task "tenant_1" opened_page (Memᴰ.head refl) is_tenants waits refl known_key refl
      (refl, (refl, (refl, tt)))

-- Two clients, in the two orders.
abbrev two : Hub
two = record new_hub { clients = 7 ∷ 8 ∷ []; batch = raised ∷ [] }

abbrev swapped : Hub
swapped = record two { clients = 8 ∷ 7 ∷ [] }

abbrev reachable : ℕ → Bool
reachable c = true

Same-swapped : Same two swapped
Same-swapped = record {
  clients = λ c. omega arith;
  sent = λ c. refl;
  batch = refl;
  batches_sent = refl;
}

Same-self : (h : Hub) → Same h h
Same-self h = record { clients = λ c. refl; sent = λ c. refl; batch = refl; batches_sent = refl }

abbrev two_ops : List Op
two_ops = tick reachable ∷ say other_alert ∷ []

abbrev after_ops : Hub
after_ops = apply (say other_alert) (apply (tick reachable) swapped)

other_order : Runs two two_ops after_ops
other_order = goes (tick reachable) (say other_alert ∷ []) Same-swapped (
    goes (say other_alert) [] (Same-self (apply (tick reachable) swapped))
      (ends (Same-self after_ops)))

run_view_lem_example :
    (view after_ops ≡ run_view two_ops (view two))
    × ((c : ℕ) → messages c after_ops.sent ≡ messages_view c (run_view two_ops (view two)))
    × (after_ops.batch ≡ waiting_view (run_view two_ops (view two)))
run_view_lem_example = run_view_lem other_order
