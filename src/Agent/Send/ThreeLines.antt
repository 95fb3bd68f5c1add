-- ===== src/Agent/Send/ThreeLines.antt =====
-- Three lines of failed logins, from log-agent/main.go to the hub of the ingestion service.

use multi_tenant_siem.Base.{
  ℕ, String, ◌≡◌, refl, ap, ◌∙◌, Bool, true, false, ◌||◌, some, List, [], ◌∷◌, ◌++◌, arith, str_eq,
  includes, concat,
}
use multi_tenant_siem.Detection.Model.{Event}
use multi_tenant_siem.Detection.BruteForce.{
  key_of, is_login_failure, brute_force_alert, detect_brute_force,
}
use multi_tenant_siem.Detection.BruteForce.Stream.{logins_after, detect_brute_force_lem}
use multi_tenant_siem.Detection.WebScan.{is_probe}
use multi_tenant_siem.Service.Alerts.{AlertService, new_alert_service, stored_alert}
use multi_tenant_siem.Service.Hub.{Hub, new_hub, broadcast}
use multi_tenant_siem.Service.Worker.{Moment, new_worker, work, tick}
use multi_tenant_siem.Service.Worker.Heard.{arrivals, work-heard}
use multi_tenant_siem.Service.Worker.SixHits.{
  IsHit, IsPaced, due-times, third_history, third_history-is_fifth, heard_six,
}
use multi_tenant_siem.Agent.Auth.{parse_auth_log}
use multi_tenant_siem.Agent.Send.{Arrival, Sent, monitor_lines}
use multi_tenant_siem.Agent.Send.Twice.{auth, guarded, IsUp, each_twice, monitor_lines-each_twice}

-- The detectors count under the address.
abbrev pub IsKnown : String → Type 0
IsKnown ip = (str_eq ip "" || str_eq ip "unknown") ≡ false

-- No message of the topic is left.
abbrev pub all_taken : List Event → Sent
all_taken queue = record { queue = queue; topic = [] }

abbrev pub nothing_sent : Sent
nothing_sent = all_taken []

-- The line is read while the networks work and the consumer keeps up, and its event has the address.
abbrev pub IsFailure : String → Arrival → Event → Type 0
IsFailure ip a e = IsUp a × (parse_auth_log a.time a.line ≡ some e) × (e.ip_address ≡ ip)

-- Every event of the parser is a login failure of the one tenant.
pub parse_auth_log-tenant :
    (now : ℕ) (line : String) (e : Event)
    → parse_auth_log now line ≡ some e
    → (e.event_type ≡ "auth_failure") × (e.tenant_id ≡ "tenant_1") × (e.source ≡ "ssh")
unfolding parse_auth_log
parse_auth_log-tenant now line e p =
    guarded
      (λ (x : Event).
        (x.event_type ≡ "auth_failure") × (x.tenant_id ≡ "tenant_1") × (x.source ≡ "ssh"))
      (includes line "Failed password") _ e (refl, refl, refl) p

IsFailure-is_login_failure :
    (ip : String) (a : Arrival) (e : Event)
    → IsKnown ip
    → IsFailure ip a e
    → is_login_failure e ≡ true
unfolding is_login_failure
IsFailure-is_login_failure ip a e known (up, p, from) =
    let (kind, tenant, source) = parse_auth_log-tenant a.time a.line e p in
    rw (kind, from, known) refl

IsFailure-key_of :
    (ip : String) (a : Arrival) (e : Event)
    → IsFailure ip a e
    → key_of e ≡ concat ("tenant_1" ∷ ":" ∷ ip ∷ [])
IsFailure-key_of ip a e (up, p, from) =
    let (kind, tenant, source) = parse_auth_log-tenant a.time a.line e p in rw (tenant, from) refl

pub IsFailure-is_probe :
    (ip : String) (a : Arrival) (e : Event) → IsFailure ip a e → is_probe e ≡ false
unfolding is_probe
IsFailure-is_probe ip a e (up, p, from) =
    let (kind, tenant, source) = parse_auth_log-tenant a.time a.line e p in rw source refl

pub IsFailure-IsHit :
    (ip : String) (a : Arrival) (e : Event)
    → IsKnown ip
    → IsFailure ip a e
    → IsHit (concat ("tenant_1" ∷ ":" ∷ ip ∷ [])) e
IsFailure-IsHit ip a e known f =
    (IsFailure-is_login_failure ip a e known f, IsFailure-key_of ip a e f)

each_twice-cons :
    (ip : String) (a : Arrival) (e : Event) (arrivals : List Arrival)
    → IsFailure ip a e
    → each_twice auth (a ∷ arrivals) ≡ e ∷ e ∷ each_twice auth arrivals
unfolding each_twice
each_twice-cons ip a e arrivals (up, p, from) = rw (p, each_twice) refl

pub three_lines-queue :
    (ip : String) (a1 a2 a3 : Arrival) (e1 e2 e3 : Event)
    → IsFailure ip a1 e1
    → IsFailure ip a2 e2
    → IsFailure ip a3 e3
    → monitor_lines parse_auth_log (a1 ∷ a2 ∷ a3 ∷ []) nothing_sent
      ≡ all_taken (e1 ∷ e1 ∷ e2 ∷ e2 ∷ e3 ∷ e3 ∷ [])
three_lines-queue ip a1 a2 a3 e1 e2 e3 f1 f2 f3 =
    monitor_lines-each_twice auth (a1 ∷ a2 ∷ a3 ∷ []) [] (f1.0, (f2.0, (f3.0, tt))) (omega arith)
    ∙ ap all_taken (
        rw
          (
            each_twice-cons ip a1 e1 (a2 ∷ a3 ∷ []) f1,
            each_twice-cons ip a2 e2 (a3 ∷ []) f2,
            each_twice-cons ip a3 e3 [] f3,
          )
          (unfold each_twice in refl))

-- Three lines of failed logins from one known address raise a brute force alert, where five are
-- meant, if both networks work, the consumer keeps up and a new worker takes the events in order, the first five at most a
-- minute apart: the queue holds each event twice, and the fifth that the detector takes is that of
-- the third line. At the next tick the worker examines them, and if the database takes the alert,
-- this alert, with its id and time, and no other waits for the clients of the hub, whether or not
-- the database takes the batch of logs.
third_line-alert :
    (ip : String) (a1 a2 a3 : Arrival) (e1 e2 e3 : Event) (commits : Bool) (m : ℕ → Moment)
    (answer : ℕ × ℕ)
    → IsKnown ip
    → IsFailure ip a1 e1
    → IsFailure ip a2 e2
    → IsFailure ip a3 e3
    → IsPaced m
    → (m 4).brute_force_row ≡ some answer
    → (monitor_lines parse_auth_log (a1 ∷ a2 ∷ a3 ∷ []) nothing_sent
        ≡ all_taken (e1 ∷ e1 ∷ e2 ∷ e2 ∷ e3 ∷ e3 ∷ []))
      × ((detect_brute_force (m 4).brute_force_at e3 (logins_after (third_history m e1 e2))).1
          ≡ some (brute_force_alert e3))
      × ((work m
            (arrivals (e1 ∷ e1 ∷ e2 ∷ e2 ∷ e3 ∷ e3 ∷ []) ++ (tick, commits) ∷ [])
            new_worker).alerts.hub.batch
          ≡ stored_alert (brute_force_alert e3) answer ∷ [])
unfolding broadcast
third_line-alert ip a1 a2 a3 e1 e2 e3 commits m answer known f1 f2 f3 paced row =
    let k = concat ("tenant_1" ∷ ":" ∷ ip ∷ []) in
    let i1 = IsFailure-IsHit ip a1 e1 known f1 in
    let i2 = IsFailure-IsHit ip a2 e2 known f2 in
    let i3 = IsFailure-IsHit ip a3 e3 known f3 in
    let c1 = IsFailure-is_probe ip a1 e1 f1 in
    let c2 = IsFailure-is_probe ip a2 e2 f2 in
    let c3 = IsFailure-is_probe ip a3 e3 f3 in
    let t = (m 4).brute_force_at in
    let h = third_history m e1 e2 in
    (
      three_lines-queue ip a1 a2 a3 e1 e2 e3 f1 f2 f3,
      detect_brute_force_lem t e3 h
          ∙ due-times k t e3 h true i3 (i2, (i2, (i1, (i1, tt))))
              (third_history-is_fifth m e1 e2 paced),
      ap (λ (s : AlertService). s.hub.batch)
            (work-heard commits m (e1 ∷ e1 ∷ e2 ∷ e2 ∷ e3 ∷ e3 ∷ []) new_alert_service
              (c1, (c1, (c2, (c2, (c3, (c3, tt)))))) (omega arith))
          ∙ ap (λ (x : Hub). x.batch) (heard_six k e1 e2 e3 m answer new_hub i1 i2 i3 paced row).1,
    )
