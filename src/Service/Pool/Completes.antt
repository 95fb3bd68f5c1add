-- ===== src/Service/Pool/Completes.antt =====
-- A flush ends, and examines its whole batch (ingestion-service/internal/service/worker.go).
use multi_tenant_siem.Base.{
  ◌*◌, ◌≤◌, ◌≡◌, refl, sym, ap, ◌∙◌, inl, inr, Bool, true, false, Option, none, some, List, [], ◌∷◌,
  ◌++◌, append_assoc, append-nil, arith, Bool-cases, Option-cases, length,
}
use multi_tenant_siem.Detection.Model.{Event, Alert}
use multi_tenant_siem.Detection.BruteForce.{detect_brute_force}
use multi_tenant_siem.Detection.WebScan.{detect_web_scan}
use multi_tenant_siem.Detection.Suppressor.{should_suppress_alert}
use multi_tenant_siem.Service.Pool.{
  Job, brute_force, web_scan, suppress, store, tell, meter, notify, Answer, Shared, create, run_job,
  jobs_of, insert_logs, begin_flush, tick, act, step_at, step, run,
}
use multi_tenant_siem.Service.Pool.Accounted.{work_left, work_left-append, work_left-run_job}
use multi_tenant_siem.Service.Pool.Alone.{go_alone}
use multi_tenant_siem.Service.Pool.Refines.{pool_with, going, run-going}

-- Enough answers finish the jobs, whatever they are.
go_alone-done :
    (rs : List Answer) (jobs : List Job) (s : Shared)
    → work_left jobs ≤ length rs
    → (go_alone rs jobs s).0 ≡ []
unfolding go_alone
go_alone-done [] [] s h = refl
go_alone-done [] (brute_force e ∷ rest) s h = absurd (omega arith)
go_alone-done [] (web_scan e ∷ rest) s h = absurd (omega arith)
go_alone-done [] (suppress a ∷ rest) s h = absurd (omega arith)
go_alone-done [] (store a ∷ rest) s h = absurd (omega arith)
go_alone-done [] (tell a ∷ rest) s h = absurd (omega arith)
go_alone-done [] (meter a ∷ rest) s h = absurd (omega arith)
go_alone-done [] (notify a ∷ rest) s h = absurd (omega arith)
go_alone-done (r ∷ rs) [] s h = refl
go_alone-done (r ∷ rs) (job ∷ rest) s h =
    go_alone-done rs ((run_job r job s).1 ++ rest) (run_job r job s).0
      (omega (arith, work_left-append (run_job r job s).1 rest, work_left-run_job r job s))

-- The events that the jobs will have examined.
abbrev unexamined : List Job → List Event
unexamined [] = []
unexamined (web_scan e ∷ rest) = e ∷ unexamined rest
unexamined (_ ∷ rest) = unexamined rest

unexamined-create :
    (a : Option Alert) (rest : List Job) → unexamined (create a ++ rest) ≡ unexamined rest
unexamined-create none rest = refl
unexamined-create (some a) rest = refl

unexamined-run_job :
    (r : Answer) (job : Job) (rest : List Job) (s : Shared)
    → (run_job r job s).0.examined ++ unexamined ((run_job r job s).1 ++ rest)
      ≡ s.examined ++ unexamined (job ∷ rest)
unfolding run_job
unexamined-run_job r (brute_force e) rest s =
    ap (◌++◌ s.examined) (unexamined-create (detect_brute_force r.now e s.logins).1 rest)
unexamined-run_job r (web_scan e) rest s =
    ap (◌++◌ (s.examined ++ e ∷ [])) (unexamined-create (detect_web_scan r.now e s.scans).1 rest)
    ∙ append_assoc s.examined (e ∷ []) (unexamined rest)
unexamined-run_job r (suppress a) rest s =
    elim (Bool-cases (should_suppress_alert r.now a s.alerts.suppressor).1) [
      | inl held ↦ rw (held, run_job) refl
      | inr fresh ↦ rw (fresh, run_job) refl
    ]
unexamined-run_job r (store a) rest s = elim (Option-cases r.row) [
  | inl lost ↦ rw (lost, run_job) refl
  | inr (answer, stored) ↦ rw (stored, run_job) refl
]
unexamined-run_job r (tell a) rest s = refl
unexamined-run_job r (meter a) rest s = refl
unexamined-run_job r (notify a) rest s = refl

unexamined-go_alone :
    (rs : List Answer) (jobs : List Job) (s : Shared)
    → (go_alone rs jobs s).1.examined ++ unexamined (go_alone rs jobs s).0
      ≡ s.examined ++ unexamined jobs
unfolding go_alone
unexamined-go_alone [] jobs s = refl
unexamined-go_alone (r ∷ rs) [] s = refl
unexamined-go_alone (r ∷ rs) (job ∷ rest) s =
    unexamined-go_alone rs ((run_job r job s).1 ++ rest) (run_job r job s).0
    ∙ unexamined-run_job r job rest s

unexamined-jobs_of : (es : List Event) → unexamined (jobs_of es) ≡ es
unfolding jobs_of
unexamined-jobs_of [] = refl
unexamined-jobs_of (e ∷ es) = ap (◌∷◌ e) (unexamined-jobs_of es)

work_left-jobs_of : (es : List Event) → work_left (jobs_of es) ≡ 12 * length es
unfolding jobs_of
work_left-jobs_of [] = refl
work_left-jobs_of (e ∷ es) = omega (arith, work_left-jobs_of es)

examined-insert_logs :
    (commits : Bool) (batch : List Event) (s : Shared)
    → (insert_logs commits batch s).examined ≡ s.examined
unfolding insert_logs
examined-insert_logs true batch s = refl
examined-insert_logs false batch s = refl

-- The jobs of events that no other worker interrupts end and have examined these events.
jobs_complete :
    (rs : List Answer) (es : List Event) (s : Shared) (received : List Event)
    → 12 * length es ≤ length rs
    → (s' : Shared) × (run (going rs) (pool_with s [] (jobs_of es) received)
        ≡ pool_with s' [] [] received)
      × (s'.examined ≡ s.examined ++ es)
jobs_complete rs es s received enough =
    let (jobs, s') = go_alone rs (jobs_of es) s in
    let done = go_alone-done rs (jobs_of es) s (omega (arith, work_left-jobs_of es)) in
    (
      s',
      run-going rs s [] (jobs_of es) received ∙ ap (λ x. pool_with s' [] x received) done,
      sym (append-nil s'.examined)
          ∙ ap (λ x. s'.examined ++ unexamined x) (sym done)
          ∙ unexamined-go_alone rs (jobs_of es) s
          ∙ ap (◌++◌ s.examined) (unexamined-jobs_of es),
    )

-- A tick starts a flush, and after at most twelve jobs for each event of the batch, with whatever
-- answers of the clock and the database, errors included, the worker is idle with an empty batch and
-- every event of the batch has been examined.
pub flush_completes :
    (commits : Bool) (rs : List Answer) (batch : List Event) (s : Shared) (received : List Event)
    → 12 * length batch ≤ length rs
    → (s' : Shared) × (run ((0, tick commits) ∷ going rs) (pool_with s batch [] received)
        ≡ pool_with s' [] [] received)
      × (s'.examined ≡ s.examined ++ batch)
unfolding run step step_at act begin_flush
flush_completes commits rs [] s received enough =
    let (s', e, f) = jobs_complete rs [] s received enough in
    (
      s',
      ap (λ x. run (going rs) (pool_with s [] [] x)) (append-nil received) ∙ unfold jobs_of in e,
      f,
    )
flush_completes commits rs (e ∷ es) s received enough =
    let (s', p, f) = jobs_complete rs (e ∷ es) (insert_logs commits (e ∷ es) s) received enough in
    (
      s',
      ap (λ x. run (going rs) (pool_with (insert_logs commits (e ∷ es) s) [] (jobs_of (e ∷ es)) x))
            (append-nil received)
          ∙ p,
      f ∙ ap (λ x. x ++ e ∷ es) (examined-insert_logs commits (e ∷ es) s),
    )
