-- ===== src/Live/Lines.antt =====
-- From lines of a log to the page: log-agent/main.go, a worker and the hub of
-- ingestion-service/internal, and frontend/src/App.jsx at the end of a socket.
use multi_tenant_siem.Base.{
  ℕ, String, ◌≡◌, refl, sym, ap, ◌∙◌, Bool, true, some, List, [], ◌∷◌, ◌++◌, arith, any, Memᴰ,
  concat,
}
use multi_tenant_siem.Detection.Model.{Event, Alert}
use multi_tenant_siem.Detection.BruteForce.{brute_force_alert}
use multi_tenant_siem.Service.Json.{alert_json}
use multi_tenant_siem.Service.Hub.{Hub, new_hub, connect, flush_batch, broadcast}
use multi_tenant_siem.Service.Alerts.{AlertService, new_alert_service, stored_alert}
use multi_tenant_siem.Service.Alerts.Agreement.{Agrees}
use multi_tenant_siem.Service.Worker.{Moment, Worker, event, tick, new_worker, work, step}
use multi_tenant_siem.Service.Worker.Heard.{arrivals, work-heard}
use multi_tenant_siem.Service.Worker.SixHits.{IsPaced, heard_six}
use multi_tenant_siem.Service.Worker.System.{Happening, take, send, serve, act, Remains}
use multi_tenant_siem.Agent.Auth.{parse_auth_log}
use multi_tenant_siem.Agent.Send.{Arrival, monitor_lines}
use multi_tenant_siem.Agent.Send.ThreeLines.{
  IsKnown, IsFailure, all_taken, nothing_sent, parse_auth_log-tenant, IsFailure-is_probe,
  IsFailure-IsHit, three_lines-queue,
}
use multi_tenant_siem.Dashboard.State.{Browser}
use multi_tenant_siem.Dashboard.Feed.{current_tenant_id, same_alert}
use multi_tenant_siem.Dashboard.Session
use multi_tenant_siem.Dashboard.Session.{Session}
use multi_tenant_siem.Dashboard.Session.Tenants.{play}
use multi_tenant_siem.Live.Page.{packets, AreLive}
use multi_tenant_siem.Live.Shown.{packets_to, live_shown}

-- The worker takes the events, a tick comes, and the hub sends its batch.
abbrev pub happenings_of : List Event → Bool → (ℕ → Bool) → List Happening
happenings_of [] commits ok = take tick commits ∷ send ok ∷ []
happenings_of (e ∷ es) commits ok = take (event e) true ∷ happenings_of es commits ok

serve-happenings_of :
    (m : ℕ → Moment) (es : List Event) (commits : Bool) (ok : ℕ → Bool) (w : Worker)
    → serve m (happenings_of es commits ok) w
      ≡ act m (send ok) (work m (arrivals es ++ (tick, commits) ∷ []) w)
unfolding serve act work
serve-happenings_of m [] commits ok w = refl
serve-happenings_of m (e ∷ es) commits ok w =
    serve-happenings_of m es commits ok (step true m (event e) w)

Remains-happenings_of :
    (c : ℕ) (es : List Event) (commits : Bool) (ok : ℕ → Bool)
    → ok c ≡ true
    → Remains c (happenings_of es commits ok)
Remains-happenings_of c [] commits ok h = (h, tt)
Remains-happenings_of c (e ∷ es) commits ok h = Remains-happenings_of c es commits ok h

-- A new worker whose hub has this one client.
abbrev pub joined : ℕ → Worker
joined c = record new_worker { alerts = record new_alert_service { hub = connect c new_hub } }

joined-Agrees : (c : ℕ) → Agrees c [] (joined c).alerts
unfolding connect
joined-Agrees c = (refl, refl, refl, ground arith)

abbrev pub six : Event → Event → Event → List Event
six e1 e2 e3 = e1 ∷ e1 ∷ e2 ∷ e2 ∷ e3 ∷ e3 ∷ []

-- The alert of the third line, as the database answers.
abbrev pub alert_of : Event → ℕ × ℕ → Alert
alert_of e answer = stored_alert (brute_force_alert e) answer

-- Six hits, a tick, and a send: one alert is stored, and nothing waits.
served_six :
    (ip : String) (a1 a2 a3 : Arrival) (e1 e2 e3 : Event) (commits : Bool) (m : ℕ → Moment)
    (answer : ℕ × ℕ) (ok : ℕ → Bool) (c : ℕ)
    → IsKnown ip
    → IsFailure ip a1 e1
    → IsFailure ip a2 e2
    → IsFailure ip a3 e3
    → IsPaced m
    → (m 4).brute_force_row ≡ some answer
    → ((serve m (happenings_of (six e1 e2 e3) commits ok) (joined c)).alerts.stored
        ≡ alert_of e3 answer ∷ [])
      × ((serve m (happenings_of (six e1 e2 e3) commits ok) (joined c)).alerts.hub.batch ≡ [])
unfolding act flush_batch broadcast connect
served_six ip a1 a2 a3 e1 e2 e3 commits m answer ok c known f1 f2 f3 paced row =
    let k = concat ("tenant_1" ∷ ":" ∷ ip ∷ []) in
    let c1 = IsFailure-is_probe ip a1 e1 f1 in
    let c2 = IsFailure-is_probe ip a2 e2 f2 in
    let c3 = IsFailure-is_probe ip a3 e3 f3 in
    let after = serve-happenings_of m (six e1 e2 e3) commits ok (joined c) in
    let worked =
      work-heard commits m (six e1 e2 e3) (joined c).alerts (c1, (c1, (c2, (c2, (c3, (c3, tt))))))
        (omega arith) in
    let (stored, hub) =
      heard_six k e1 e2 e3 m answer (connect c new_hub) (IsFailure-IsHit ip a1 e1 known f1)
        (IsFailure-IsHit ip a2 e2 known f2) (IsFailure-IsHit ip a3 e3 known f3) paced row in
    (
      ap (λ (w : Worker). w.alerts.stored) after
          ∙ ap (λ (s : AlertService). s.stored) worked
          ∙ stored,
      ap (λ (w : Worker). w.alerts.hub.batch) after
          ∙ ap (λ (s : AlertService). (flush_batch ok s.hub).batch) worked
          ∙ ap (λ (h : Hub). (flush_batch ok h).batch) hub,
    )

-- From a log to the page. The agent reads three lines of failed logins from one known address while
-- both networks work, its clock is at most a day ahead of the server's, and the consumer takes each
-- message before the next line is read, so the queue holds each event twice; a new worker, whose hub has one client,
-- takes the events in order, the first five at most a minute apart, then a tick comes, and the hub
-- sends its batch. If the database takes the alert and the write to the client succeeds, then the
-- brute force alert of the third line, with its id and time, is the only one stored, where five lines
-- are meant; and a page of tenant_1 that gets what the hub sends to this client, among any steps that
-- change no tenant and bring no list of alerts, shows it, whether or not the logs are stored.
pub third_line-shown :
    (ip : String) (a1 a2 a3 : Arrival) (e1 e2 e3 : Event) (commits : Bool) (m : ℕ → Moment)
    (answer : ℕ × ℕ) (ok : ℕ → Bool) (c : ℕ) (time_text : ℕ → String) (ws : String)
    (inputs : List (Browser × Session.Input)) (s : Session)
    → IsKnown ip
    → IsFailure ip a1 e1
    → IsFailure ip a2 e2
    → IsFailure ip a3 e3
    → IsPaced m
    → (m 4).brute_force_row ≡ some answer
    → ok c ≡ true
    → packets inputs
      ≡ packets_to time_text c
          (serve m (happenings_of (six e1 e2 e3) commits ok) (joined c)).alerts.hub.sent
    → AreLive ws inputs s
    → current_tenant_id s.socket_key ≡ "tenant_1"
    → (monitor_lines parse_auth_log (a1 ∷ a2 ∷ a3 ∷ []) nothing_sent ≡ all_taken (six e1 e2 e3))
      × ((serve m (happenings_of (six e1 e2 e3) commits ok) (joined c)).alerts.stored
          ≡ alert_of e3 answer ∷ [])
      × (any (same_alert (alert_json time_text (alert_of e3 answer))) (play ws inputs s).page.alerts
          ≡ true)
third_line-shown ip a1 a2 a3 e1 e2 e3 commits m answer ok c time_text ws inputs s known f1 f2 f3
      paced row reached sent live tenant =
    let (stored, flushed) =
      served_six ip a1 a2 a3 e1 e2 e3 commits m answer ok c known f1 f2 f3 paced row in
    let of_tenant_1 = (parse_auth_log-tenant a3.time a3.line e3 f3.1).1 in
    (
      three_lines-queue ip a1 a2 a3 e1 e2 e3 f1 f2 f3,
      stored,
      live_shown time_text c [] m (happenings_of (six e1 e2 e3) commits ok) (joined c) ws inputs s
          (alert_of e3 answer) (Remains-happenings_of c (six e1 e2 e3) commits ok reached)
          (joined-Agrees c) flushed sent live (rw stored (Memᴰ.head refl))
          (of_tenant_1 ∙ sym tenant),
    )
