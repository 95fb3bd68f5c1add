-- ===== src/Examples/Page.antt =====
-- Runs of the page (frontend/src/App.jsx): packets, answers of the server, changes of tenant.
use multi_tenant_siem.Base.{
  ℕ, String, ◌≡◌, refl, ◌≢◌, true, false, none, some, List, [], ◌∷◌, arith, str_eq, All,
}
use multi_tenant_siem.Js.{Value, null, num, str, array, arr, obj, field, end, or_else, strict_eq}
use multi_tenant_siem.Dashboard.State.{Dashboard, Browser, init, no_traffic}
use multi_tenant_siem.Dashboard.Fetch
use multi_tenant_siem.Dashboard.Fetch.{
  Reply, unreachable, response, Body, parsed, garbled, array_or_member, Captured, Stage, resume,
  map_or_throw, status_slice, ok_body,
}
use multi_tenant_siem.Dashboard.Fetch.Runs.{run_fetch, run_fetch_ends}
use multi_tenant_siem.Dashboard.Fetch.Good.{good, run_fetch-good}
use multi_tenant_siem.Dashboard.Feed.{current_tenant_id, belongs_to}
use multi_tenant_siem.Dashboard.Session.{Session, Input, answer, mount, step, switch_tenant}
use multi_tenant_siem.Dashboard.Session.Tenants.{
  IsHonest, IsQuiet, IsSettled, AreQuiet, step-IsSettled,
}
use multi_tenant_siem.Dashboard.Session.Switch.{key_of, alerts-switch_tenant, late_answer_shown}

abbrev alert : ℕ → String → Value
alert id tenant = obj (
    field "id" (num id)
      (field "tenant_id" (str tenant) (field "created_at" (str "2026-05-01T10:00:00Z") end)))

-- A packet with an alert of each of two tenants.
abbrev packet : Value
packet = arr (array (alert 1 "tenant_1" ∷ alert 2 "tenant_2" ∷ []))

abbrev browser : Browser
browser = record {
  ms = 1000;
  time_text = "10:00:00";
  type_error = "is not a function";
  has_clipboard = true;
}

abbrev captured : Captured
captured = record { api_key = "tenant1-secret-key"; selected_attacker_ip = str "10.0.0.1" }

abbrev mounted : Session
mounted = mount browser "ws://localhost:8080/ws"

mine : belongs_to "tenant_1" (alert 1 "tenant_1") ≡ true
unfolding belongs_to strict_eq
mine = refl

page_mine : All (λ x. belongs_to "tenant_1" x ≡ true) (alert 1 "tenant_1" ∷ [])
page_mine = (mine, tt)

abbrev body : Reply
body = response 200 (parsed (arr (array (alert 1 "tenant_1" ∷ []))))

-- The first answer, a packet of both tenants, and a click on "Refresh Data".
abbrev inputs : List (Browser × Input)
inputs =
    (browser, Input.answered 0 body)
    ∷ (browser, Input.packet (some packet))
    ∷ (browser, Input.refresh)
    ∷ []

body-IsHonest : IsHonest "tenant1-secret-key" body
unfolding array_or_member belongs_to strict_eq current_tenant_id
body-IsHonest = (refl, tt)

inputs_quiet : AreQuiet "ws://localhost:8080/ws" inputs mounted
unfolding mount
inputs_quiet = (body-IsHonest, (tt, (tt, tt)))

mounted-IsSettled : IsSettled mounted
unfolding mount
mounted-IsSettled = record { shown = tt; tasks = (refl, tt); socket = refl }

packet-IsQuiet : IsQuiet mounted (Input.packet (some packet))
packet-IsQuiet = tt

step-IsSettled_example :
    IsSettled (step browser "ws://localhost:8080/ws" (Input.packet (some packet)) mounted)
step-IsSettled_example =
    step-IsSettled browser "ws://localhost:8080/ws" (Input.packet (some packet)) mounted
      mounted-IsSettled packet-IsQuiet

-- The second request is answered by an error, and the fifth by no JSON.
abbrev replies : List Reply
replies =
    body
    ∷ response 500 (garbled "Unexpected end of JSON input")
    ∷ good null
    ∷ good null
    ∷ response 200 (garbled "Unexpected end of JSON input")
    ∷ []

run_fetch_ends_example :
    (d' : Dashboard) × (run_fetch browser captured Fetch.alerts replies init ≡ some d')
    × (d'.loading ≡ false)
run_fetch_ends_example = run_fetch_ends browser captured Fetch.alerts replies init (omega arith)

no_slices : map_or_throw status_slice (array_or_member "status_codes" null) ≡ some []
unfolding map_or_throw array_or_member
no_slices = refl

run_fetch-good_example :
    (d' : Dashboard) × (run_fetch browser captured Fetch.alerts
        (good packet ∷ good null ∷ good null ∷ good null ∷ good null ∷ [])
        init
      ≡ some d')
    × (d'.alerts ≡ array_or_member "alerts" packet)
    × (d'.traffic_analytics ≡ or_else null no_traffic)
    × (d'.status_code_analytics ≡ [])
    × (d'.top_paths ≡ array_or_member "paths" null)
    × (d'.attackers ≡ arr (array (array_or_member "attackers" null)))
    × (d'.selected_attacker_ip ≡ init.selected_attacker_ip)
    × (d'.toast ≡ init.toast)
    × (d'.loading ≡ false)
run_fetch-good_example =
    run_fetch-good browser captured packet null null null null [] init refl no_slices

offline : ok_body (unreachable "Failed to fetch") ≡ none
unfolding ok_body
offline = refl

abbrev offline_page : Dashboard
offline_page = (resume browser captured Fetch.alerts (unreachable "Failed to fetch") init).0

traffic_is_late : Fetch.traffic ≢ Fetch.alerts
traffic_is_late = λ e. cc e

other_tenant : str_eq (key_of "tenant2") mounted.page.api_key ≡ false
unfolding mount
other_tenant = refl

abbrev switched : Session
switched = switch_tenant browser "ws://localhost:8080/ws" "tenant2" mounted

alerts-switch_tenant_example :
    (switched.page.api_key ≡ "tenant2-secret-key")
    × ((resume browser captured Fetch.alerts (unreachable "Failed to fetch") switched.page).0.alerts
        ≡ mounted.page.alerts)
    × ((resume browser captured Fetch.alerts
          (unreachable "Failed to fetch")
          switched.page).0.api_key
        ≡ "tenant2-secret-key")
alerts-switch_tenant_example =
    alerts-switch_tenant browser browser "ws://localhost:8080/ws" "tenant2" mounted captured
      (unreachable "Failed to fetch") other_tenant offline

abbrev first_run : Captured
first_run = record { api_key = "tenant1-secret-key"; selected_attacker_ip = null }

mounted_busy : mounted.tasks ≡ record { captured = first_run; stage = Fetch.alerts } ∷ []
unfolding mount
mounted_busy = refl

body_read : ok_body body ≡ some (arr (array (alert 1 "tenant_1" ∷ [])))
unfolding ok_body
body_read = refl

late_answer_shown_example :
    ((answer browser 0 body switched).page.api_key ≡ "tenant2-secret-key")
    × ((answer browser 0 body switched).page.alerts
        ≡ array_or_member "alerts" (arr (array (alert 1 "tenant_1" ∷ []))))
late_answer_shown_example =
    late_answer_shown browser browser "ws://localhost:8080/ws" "tenant2" mounted first_run [] body
      (arr (array (alert 1 "tenant_1" ∷ []))) other_tenant mounted_busy body_read
