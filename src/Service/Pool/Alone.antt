-- ===== src/Service/Pool/Alone.antt =====
-- The jobs of a flush that no other worker interrupts do what the flush of Service/Worker does
-- (ingestion-service/internal/service/worker.go).
use multi_tenant_siem.Base.{
  ℕ, ◌≡◌, refl, ap, ◌∙◌, inl, inr, Option, none, some, List, [], ◌∷◌, ◌++◌, arith, Bool-cases,
  length,
}
use multi_tenant_siem.Detection.Model.{Event, Alert}
use multi_tenant_siem.Detection.BruteForce.{detect_brute_force}
use multi_tenant_siem.Detection.WebScan.{detect_web_scan}
use multi_tenant_siem.Detection.Suppressor.{should_suppress_alert}
use multi_tenant_siem.Service.Alerts.{AlertService, create_alert, stored_alert, add_row, announce}
use multi_tenant_siem.Service.Worker.{Moment, Worker, raise, examine, examine_all}
use multi_tenant_siem.Service.Pool.{
  Job, brute_force, web_scan, Answer, Shared, create, run_job, jobs_of,
}

abbrev pub shared_of : Worker → Shared
shared_of w = record {
  logs = w.logs;
  events_processed = w.events_processed;
  logins = w.logins;
  scans = w.scans;
  alerts = w.alerts;
  examined = w.examined;
  errors = w.errors;
}

-- The jobs of one flush, one after the other.
unfoldable pub go_alone : List Answer → List Job → Shared → List Job × Shared
unfolding run_job
go_alone [] jobs s = (jobs, s)
go_alone (r ∷ rs) [] s = ([], s)
go_alone (r ∷ rs) (job ∷ rest) s = let (s', more) = run_job r job s in go_alone rs (more ++ rest) s'

-- Some answers lead from the jobs and the state to these.
abbrev pub Leads : List Job → Shared → List Job → Shared → Type 0
Leads jobs s jobs' s' = (rs : List Answer) × (go_alone rs jobs s ≡ (jobs', s'))

go_alone-append :
    (rs rs' : List Answer) (jobs : List Job) (s : Shared)
    → go_alone (rs ++ rs') jobs s ≡ go_alone rs' (go_alone rs jobs s).0 (go_alone rs jobs s).1
unfolding go_alone
go_alone-append [] rs' jobs s = refl
go_alone-append (r ∷ rs) [] [] s = refl
go_alone-append (r ∷ rs) (r' ∷ rs') [] s = refl
go_alone-append (r ∷ rs) rs' (job ∷ rest) s =
    go_alone-append rs rs' ((run_job r job s).1 ++ rest) (run_job r job s).0

Leads-trans :
    (jobs : List Job) (s : Shared) (jobs1 : List Job) (s1 : Shared) (jobs2 : List Job) (s2 : Shared)
    → Leads jobs s jobs1 s1
    → Leads jobs1 s1 jobs2 s2
    → Leads jobs s jobs2 s2
Leads-trans jobs s jobs1 s1 jobs2 s2 (rs, p) (rs', q) =
    (rs ++ rs', go_alone-append rs rs' jobs s ∙ ap (λ x. go_alone rs' x.0 x.1) p ∙ q)

-- What a suppressor leaves.
abbrev seen : ℕ → Alert → Worker → AlertService
seen now a w = record w.alerts { suppressor = (should_suppress_alert now a w.alerts.suppressor).0 }

-- The state with these alerts and `n` errors.
abbrev with_alerts : Worker → AlertService → ℕ → Shared
with_alerts w alerts n = record (shared_of w) { alerts = alerts; errors = n }

one_answer : ℕ → Option (ℕ × ℕ) → Answer
one_answer now row = record { now = now; row = row }

-- `CreateAlert` is the five jobs of an alert, as far as they come about.
Leads-raise :
    (now : ℕ) (row : Option (ℕ × ℕ)) (alert : Option Alert) (w : Worker) (rest : List Job)
    → Leads (create alert ++ rest) (shared_of w) rest (shared_of (raise now row alert w))
unfolding go_alone run_job raise create_alert one_answer
Leads-raise now row none w rest = ([], refl)
Leads-raise now none (some a) w rest =
    elim (Bool-cases (should_suppress_alert now a w.alerts.suppressor).1) [
      | inl held ↦ (
        one_answer now none ∷ [],
        rw held (ap (λ n. (rest, with_alerts w (seen now a w) n)) (omega arith)),
      )
      | inr fresh ↦ (
        one_answer now none ∷ one_answer now none ∷ [],
        rw (fresh, go_alone, run_job, raise, create_alert) refl,
      )
    ]
Leads-raise now (some answer) (some a) w rest =
    elim (Bool-cases (should_suppress_alert now a w.alerts.suppressor).1) [
      | inl held ↦ (
        one_answer now (some answer) ∷ [],
        rw held (ap (λ n. (rest, with_alerts w (seen now a w) n)) (omega arith)),
      )
      | inr fresh ↦ (
        one_answer now (some answer)
            ∷ one_answer now (some answer)
            ∷ one_answer now (some answer)
            ∷ one_answer now (some answer)
            ∷ one_answer now (some answer)
            ∷ [],
        rw (fresh, go_alone, run_job, raise, create_alert)
            (ap
              (λ n. (
                rest,
                with_alerts w
                    (announce (stored_alert a answer)
                      (add_row (stored_alert a answer) (seen now a w)))
                    n,
              ))
              (omega arith)),
      )
    ]

-- The trace of the examined events has no part in an alert.
raise-examined :
    (now : ℕ) (row : Option (ℕ × ℕ)) (alert : Option Alert) (w : Worker) (es : List Event)
    → raise now row alert (record w { examined = w.examined ++ es })
      ≡ (let w' = raise now row alert w in record w' { examined = w'.examined ++ es })
unfolding raise
raise-examined now row none w es = refl
raise-examined now row (some a) w es = refl

Leads-examine :
    (m : Moment) (e : Event) (w : Worker) (rest : List Job)
    → Leads (brute_force e ∷ web_scan e ∷ rest) (shared_of w) rest (shared_of (examine m e w))
unfolding go_alone run_job examine one_answer
Leads-examine m e w rest =
    let b = detect_brute_force m.brute_force_at e w.logins in
    let w0 = record w { logins = b.0 } in
    let w1 = raise m.brute_force_alert_at m.brute_force_row b.1 w0 in
    let s = detect_web_scan m.web_scan_at e w1.scans in
    let w2 = record w1 { scans = s.0 } in
    let w3 = record w2 { examined = w2.examined ++ e ∷ [] } in
    Leads-trans _ _ (create b.1 ++ web_scan e ∷ rest) (shared_of w0) _ _
      (one_answer m.brute_force_at none ∷ [], refl)
      (Leads-trans _ _ (web_scan e ∷ rest) (shared_of w1) _ _
        (Leads-raise m.brute_force_alert_at m.brute_force_row b.1 w0 (web_scan e ∷ rest))
        (Leads-trans _ _ (create s.1 ++ rest) (shared_of w3) _ _
          (one_answer m.web_scan_at none ∷ [], refl)
          (let (rs, p) = Leads-raise m.web_scan_alert_at m.web_scan_row s.1 w3 rest in
            (
              rs,
              p
                  ∙ ap (λ x. (rest, shared_of x))
                      (raise-examined m.web_scan_alert_at m.web_scan_row s.1 w2 (e ∷ [])),
            ))))

pub Leads-examine_all :
    (m : ℕ → Moment) (es : List Event) (w : Worker)
    → Leads (jobs_of es) (shared_of w) [] (shared_of (examine_all m es w))
unfolding examine_all jobs_of go_alone
Leads-examine_all m [] w = ([], refl)
Leads-examine_all m (e ∷ es) w =
    Leads-trans _ _ (jobs_of es) (shared_of (examine (m (length w.examined)) e w)) _ _
      (Leads-examine (m (length w.examined)) e w (jobs_of es))
      (Leads-examine_all m es (examine (m (length w.examined)) e w))
