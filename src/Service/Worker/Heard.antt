-- ===== src/Service/Worker/Heard.antt =====
-- The alerts of a worker whose events are no probes of a web server
-- (ingestion-service/internal/service/worker.go).
use multi_tenant_siem.Base.{
  ℕ, ◌≡◌, ◌<◌, refl, sym, ap, ◌∙◌, ◌+◌, ◌++◌, ◌&&◌, Bool, true, false, Option, none, some, List, [],
  ◌∷◌, if◌then◌else◌, length, length-append, append-nil, append_assoc, All, arith, leb, Bool-cases,
  inl, inr, is_empty,
}
use multi_tenant_siem.Detection.BruteForce.{
  FailedLogins, detect_brute_force, is_login_failure, key_of, brute_force_alert,
}
use multi_tenant_siem.Detection.BruteForce.Stream.{
  History, logins_after, failures, detect_brute_force_lem,
}
use multi_tenant_siem.Detection.Streaks.{is_fifth}
use multi_tenant_siem.Detection.WebScan.{ScanMap, detect_web_scan, is_probe}
use multi_tenant_siem.Service.Alerts.{AlertService, create_alert}
use multi_tenant_siem.Service.Worker.{
  Moment, Worker, new_worker, batch_size, raise, examine, examine_all, insert_logs_batch, flush,
  step, work, Input, event, tick, Event, Alert,
}

-- What becomes of the service of the alerts.
abbrev pub created : ℕ → Option (ℕ × ℕ) → Option Alert → AlertService → AlertService
created now row none s = s
created now row (some a) s = (create_alert now row a s).0

-- The alert that an event is to raise after a history.
abbrev pub due : ℕ → Event → History → Option Alert
due t e h =
    if is_login_failure e && is_fifth (t ∷ failures (key_of e) h)
    then some (brute_force_alert e)
    else none

-- The service of the alerts after these events.
unfoldable pub heard : (ℕ → Moment) → ℕ → List Event → History → AlertService → AlertService
heard m n [] h s = s
heard m n (e ∷ es) h s =
    heard m (n + 1) es (((m n).brute_force_at, e) ∷ h)
      (created (m n).brute_force_alert_at (m n).brute_force_row (due (m n).brute_force_at e h) s)

raise-created :
    (now : ℕ) (row : Option (ℕ × ℕ)) (a : Option Alert) (w : Worker)
    → ((raise now row a w).alerts ≡ created now row a w.alerts)
      × ((raise now row a w).logins ≡ w.logins)
      × ((raise now row a w).examined ≡ w.examined)
unfolding raise
raise-created now row none w = (refl, refl, refl)
raise-created now row (some a) w = (refl, refl, refl)

no_probe :
    (t : ℕ) (e : Event) (scans : ScanMap)
    → is_probe e ≡ false
    → (detect_web_scan t e scans).1 ≡ none
unfolding detect_web_scan
no_probe t e scans h = rw (h, detect_web_scan) refl

examine-created :
    (m : Moment) (e : Event) (w : Worker)
    → is_probe e ≡ false
    → ((examine m e w).alerts
        ≡ created m.brute_force_alert_at m.brute_force_row
            (detect_brute_force m.brute_force_at e w.logins).1
            w.alerts)
      × ((examine m e w).logins ≡ (detect_brute_force m.brute_force_at e w.logins).0)
      × ((examine m e w).examined ≡ w.examined ++ e ∷ [])
unfolding examine
examine-created m e w calm =
    let b = detect_brute_force m.brute_force_at e w.logins in
    let w0 = record w { logins = b.0 } in
    let w1 = raise m.brute_force_alert_at m.brute_force_row b.1 w0 in
    let s = detect_web_scan m.web_scan_at e w1.scans in
    let w2 = record w1 { scans = s.0 } in
    let (a1, l1, x1) = raise-created m.brute_force_alert_at m.brute_force_row b.1 w0 in
    let (a2, l2, x2) = raise-created m.web_scan_alert_at m.web_scan_row s.1 w2 in
    (
      a2
          ∙ ap (λ o. created m.web_scan_alert_at m.web_scan_row o w2.alerts)
              (no_probe m.web_scan_at e w1.scans calm)
          ∙ a1,
      l2 ∙ l1,
      ap (λ xs. xs ++ e ∷ []) (x2 ∙ x1),
    )

-- The worker has examined n events, of which the detector keeps what the history makes of it.
abbrev pub IsAfter : ℕ → History → Worker → Type 0
IsAfter n h w = (length w.examined ≡ n) × (w.logins ≡ logins_after h)

IsAfter-examine :
    (m : ℕ → Moment) (n : ℕ) (h : History) (e : Event) (w : Worker)
    → is_probe e ≡ false
    → IsAfter n h w
    → IsAfter (n + 1) (((m n).brute_force_at, e) ∷ h) (examine (m n) e w)
      × ((examine (m n) e w).alerts
          ≡ created
              (m n).brute_force_alert_at
              (m n).brute_force_row
              (due (m n).brute_force_at e h)
              w.alerts)
unfolding logins_after
IsAfter-examine m n h e w calm (count, at) =
    let (a, l, x) = examine-created (m n) e w calm in
    let t = (m n).brute_force_at in
    (
      (
        ap length x ∙ length-append w.examined (e ∷ []) ∙ ap (λ k. k + 1) count,
        l ∙ ap (λ (f : FailedLogins). (detect_brute_force t e f).0) at,
      ),
      a
          ∙ ap
              (λ (f : FailedLogins).
                created (m n).brute_force_alert_at (m n).brute_force_row
                  (detect_brute_force t e f).1 w.alerts)
              at
          ∙ ap (λ o. created (m n).brute_force_alert_at (m n).brute_force_row o w.alerts)
              (detect_brute_force_lem t e h),
    )

-- Of events that are no probes, the service of the alerts gets an alert exactly for each login
-- failure that is a fifth, tenth, … of an unbroken streak of its tenant and address.
pub examine_all-heard :
    (m : ℕ → Moment) (n : ℕ) (h : History) (es : List Event) (w : Worker)
    → All (λ e. is_probe e ≡ false) es
    → IsAfter n h w
    → (examine_all m es w).alerts ≡ heard m n es h w.alerts
unfolding examine_all heard
examine_all-heard m n h [] w calm after = refl
examine_all-heard m n h (e ∷ es) w (calm, more) after =
    let (next, now) = IsAfter-examine m n h e w calm after in
    ap (λ k. (examine_all m es (examine (m k) e w)).alerts) after.0
    ∙ examine_all-heard m (n + 1) (((m n).brute_force_at, e) ∷ h) es (examine (m n) e w) more next
    ∙ ap (heard m (n + 1) es (((m n).brute_force_at, e) ∷ h)) now

-- A flush, from a worker whose detector has seen the history.
flush-heard :
    (commits : Bool) (m : ℕ → Moment) (h : History) (w : Worker)
    → All (λ e. is_probe e ≡ false) w.batch
    → w.logins ≡ logins_after h
    → (flush commits m w).alerts ≡ heard m (length w.examined) w.batch h w.alerts
unfolding flush heard insert_logs_batch
flush-heard commits m h w calm at = elim (Bool-cases (is_empty w.batch)) [
  | inl nothing ↦ rw (nothing, flush) (idle w.batch nothing)
  | inr some_there ↦ rw (some_there, flush) (busy commits)
]
  where
    idle :
        (batch : List Event)
        → is_empty batch ≡ true
        → w.alerts ≡ heard m (length w.examined) batch h w.alerts
    idle [] empty = refl
    idle (e ∷ es) empty = absurd (cc empty)

    busy :
        (commits : Bool)
        → (examine_all m w.batch (insert_logs_batch commits w)).alerts
          ≡ heard m (length w.examined) w.batch h w.alerts
    busy true = examine_all-heard m _ h w.batch (insert_logs_batch true w) calm (refl, at)
    busy false = examine_all-heard m _ h w.batch (insert_logs_batch false w) calm (refl, at)

-- Events that come from the queue, and fill no batch.
abbrev pub arrivals : List Event → List (Input × Bool)
arrivals [] = []
arrivals (e ∷ es) = (event e, true) ∷ arrivals es

work-arrivals :
    (m : ℕ → Moment) (es : List Event) (rest : List (Input × Bool)) (w : Worker)
    → length w.batch + length es < batch_size
    → work m (arrivals es ++ rest) w ≡ work m rest (record w { batch = w.batch ++ es })
unfolding work step
work-arrivals m [] rest w room =
    ap (λ (b : List Event). work m rest (record w { batch = b })) (sym (append-nil w.batch))
work-arrivals m (e ∷ es) rest w room =
    let counted = length-append w.batch (e ∷ []) in
    let waits : leb batch_size (length (w.batch ++ e ∷ [])) ≡ false = ground (arith, counted) in
    ap
      (λ (b : Bool). work m (arrivals es ++ rest) (
        if b
        then flush true m (record w { batch = w.batch ++ e ∷ [] })
        else record w { batch = w.batch ++ e ∷ [] }))
      waits
    ∙ work-arrivals m es rest (record w { batch = w.batch ++ e ∷ [] }) (omega (arith, counted))
    ∙ ap (λ (b : List Event). work m rest (record w { batch = b }))
        (append_assoc w.batch (e ∷ []) es)

-- A new worker over a service of the alerts takes events that fill no batch, and then a tick.
pub work-heard :
    (commits : Bool) (m : ℕ → Moment) (es : List Event) (s : AlertService)
    → All (λ e. is_probe e ≡ false) es
    → length es < batch_size
    → (work m (arrivals es ++ (tick, commits) ∷ []) (record new_worker { alerts = s })).alerts
      ≡ heard m 0 es [] s
unfolding work step
work-heard commits m es s calm room =
    let w = record new_worker { alerts = s } in
    ap (λ (x : Worker). x.alerts) (work-arrivals m es ((tick, commits) ∷ []) w (omega arith))
    ∙ flush-heard commits m [] (record w { batch = es }) calm (unfold logins_after in refl)
