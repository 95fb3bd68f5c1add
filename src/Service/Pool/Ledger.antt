-- ===== src/Service/Pool/Ledger.antt =====
-- What the workers have done and what their jobs have still to do, against what is owed
-- (ingestion-service/internal/service/worker.go): one account for each thing that is counted.
use multi_tenant_siem.Base.{
  ℕ, zero, suc, ◌+◌, ◌≡◌, refl, inl, inr, Bool, true, false, List, [], ◌∷◌, ◌++◌, arith, leb,
  Bool-cases, Option-cases, length, is_empty, Option, none, some,
}
use multi_tenant_siem.Detection.Model.{Event, Alert}
use multi_tenant_siem.Detection.BruteForce.{detect_brute_force}
use multi_tenant_siem.Detection.WebScan.{detect_web_scan}
use multi_tenant_siem.Detection.Suppressor.{AlertMap, should_suppress_alert}
use multi_tenant_siem.Service.Alerts.{
  AlertService, stored_alert, add_row, tell_hub, count_generated, begin_slack,
}
use multi_tenant_siem.Service.Worker.{batch_size}
use multi_tenant_siem.Service.Pool.{
  create, suppress, store, tell, meter, notify, Job, brute_force, web_scan, Answer, Shared, Local,
  run_job, jobs_of, insert_logs, begin_flush, Act, take, tick, go, is_enabled, do_jobs, act, Pool,
  step_at, step,
}

-- What is left to do in some jobs, if each weighs so much.
abbrev pub left_of : (Job → ℕ) → List Job → ℕ
left_of weight [] = 0
left_of weight (job ∷ rest) = weight job + left_of weight rest

abbrev pub left_by : (Job → ℕ) → List Local → ℕ
left_by weight [] = 0
left_by weight (l ∷ ls) = left_of weight l.jobs + left_by weight ls

left_of-append :
    (weight : Job → ℕ) (xs ys : List Job)
    → left_of weight (xs ++ ys) ≡ left_of weight xs + left_of weight ys
left_of-append weight [] ys = omega arith
left_of-append weight (x ∷ xs) ys = omega (arith, left_of-append weight xs ys)

-- An account of the service of the alerts: what is done and what is owed, and that each job moves what
-- it weighs.
pub record Account : Type 0 where
  pub weight : Job → ℕ
  pub done : AlertService → ℕ
  pub owed : AlertService → ℕ
  pub idle : (e : Event) → (weight (brute_force e) ≡ 0) × (weight (web_scan e) ≡ 0)
  pub fresh : (a : Alert) → (weight (suppress a) ≡ 0) × (weight (store a) ≡ 0)
  pub forgets :
      (seen : AlertMap) (s : AlertService)
      → (done (record s { suppressor = seen }) ≡ done s)
        × (owed (record s { suppressor = seen }) ≡ owed s)
  pub stores :
      (a : Alert) (s : AlertService)
      → done (add_row a s) + weight (tell a) + owed s ≡ done s + owed (add_row a s)
  pub tells :
      (a : Alert) (s : AlertService)
      → done (tell_hub a s) + weight (meter a) + owed s
        ≡ done s + weight (tell a) + owed (tell_hub a s)
  pub meters :
      (a : Alert) (s : AlertService)
      → done (count_generated a s) + weight (notify a) + owed s
        ≡ done s + weight (meter a) + owed (count_generated a s)
  pub notifies :
      (a : Alert) (s : AlertService)
      → done (begin_slack a s) + owed s ≡ done s + weight (notify a) + owed (begin_slack a s)

module _ (c : Account) (before : ℕ) where
  -- With `n` left to do, the account is balanced.
  abbrev pub Balanced : ℕ → Shared → Type 0
  Balanced n s = c.done s.alerts + n ≡ before + c.owed s.alerts

  left_of-create : (o : Option Alert) → left_of c.weight (create o) ≡ 0
  left_of-create none = refl
  left_of-create (some a) = omega (arith, (c.fresh a).0)

  run_job-moves :
      (r : Answer) (job : Job) (s : Shared)
      → c.done (run_job r job s).0.alerts + left_of c.weight (run_job r job s).1 + c.owed s.alerts
        ≡ c.done s.alerts + c.weight job + c.owed (run_job r job s).0.alerts
  unfolding run_job
  run_job-moves r (brute_force e) s =
      omega (arith, (c.idle e).0, left_of-create (detect_brute_force r.now e s.logins).1)
  run_job-moves r (web_scan e) s =
      omega (arith, (c.idle e).1, left_of-create (detect_web_scan r.now e s.scans).1)
  run_job-moves r (suppress a) s =
      let (seen, suppressed) = should_suppress_alert r.now a s.alerts.suppressor in
      let (done, owed) = c.forgets seen s.alerts in
      let (none_yet, none_stored) = c.fresh a in
      elim (Bool-cases suppressed) [
        | inl held ↦ rw (held, run_job) (omega (arith, done, owed, none_yet))
        | inr new ↦ rw (new, run_job) (omega (arith, done, owed, none_yet, none_stored))
      ]
  run_job-moves r (store a) s = elim (Option-cases r.row) [
    | inl lost ↦ rw (lost, run_job) (omega (arith, (c.fresh a).1))
    | inr (answer, stored) ↦
        rw (stored, run_job)
          (omega (arith, (c.fresh a).1, c.stores (stored_alert a answer) s.alerts))
  ]
  run_job-moves r (tell a) s = omega (arith, c.tells a s.alerts)
  run_job-moves r (meter a) s = omega (arith, c.meters a s.alerts)
  run_job-moves r (notify a) s = omega (arith, c.notifies a s.alerts)

  alerts-insert_logs :
      (commits : Bool) (batch : List Event) (s : Shared)
      → (insert_logs commits batch s).alerts ≡ s.alerts
  unfolding insert_logs
  alerts-insert_logs true batch s = refl
  alerts-insert_logs false batch s = refl

  do_jobs-Balanced :
      (n : ℕ) (r : Answer) (jobs : List Job) (l : Local) (s : Shared)
      → l.jobs ≡ jobs
      → Balanced (left_of c.weight jobs + n) s
      → Balanced (left_of c.weight (do_jobs r jobs l s).0.jobs + n) (do_jobs r jobs l s).1
  unfolding do_jobs
  do_jobs-Balanced n r [] l s e h = rw e h
  do_jobs-Balanced n r (job ∷ rest) l s e h =
      omega (arith, run_job-moves r job s, left_of-append c.weight (run_job r job s).1 rest)

  left_of-jobs_of : (es : List Event) → left_of c.weight (jobs_of es) ≡ 0
  unfolding jobs_of
  left_of-jobs_of [] = refl
  left_of-jobs_of (e ∷ es) = omega (arith, (c.idle e).0, (c.idle e).1, left_of-jobs_of es)

  left_of-none : (jobs : List Job) → is_empty jobs ≡ true → left_of c.weight jobs ≡ 0
  left_of-none [] e = refl
  left_of-none (job ∷ rest) e = absurd (cc e)

  begin_flush-Balanced :
      (n : ℕ) (commits : Bool) (l : Local) (s : Shared)
      → is_empty l.jobs ≡ true
      → Balanced (left_of c.weight l.jobs + n) s
      → Balanced (left_of c.weight (begin_flush commits l s).0.jobs + n) (begin_flush commits l s).1
  unfolding begin_flush
  begin_flush-Balanced n commits l s idle h = elim (Bool-cases (is_empty l.batch)) [
    | inl nothing ↦ rw (nothing, begin_flush) h
    | inr some_there ↦
        rw (some_there, begin_flush)
          (rw (alerts-insert_logs commits l.batch s)
            (omega (arith, left_of-jobs_of l.batch, left_of-none l.jobs idle)))
  ]

  act-Balanced :
      (n : ℕ) (a : Act) (l : Local) (s : Shared)
      → is_enabled a l ≡ true
      → Balanced (left_of c.weight l.jobs + n) s
      → Balanced (left_of c.weight (act a l s).0.jobs + n) (act a l s).1
  unfolding act
  act-Balanced n (go r) l s enabled h = do_jobs-Balanced n r l.jobs l s refl h
  act-Balanced n (tick commits) l s idle h = begin_flush-Balanced n commits l s idle h
  act-Balanced n (take e commits) l s idle h =
      let l' = record l { batch = l.batch ++ e ∷ [] } in
      elim (Bool-cases (leb batch_size (length l'.batch))) [
        | inl full ↦ rw (full, act) (begin_flush-Balanced n commits l' s idle h)
        | inr room ↦ rw (room, act) h
      ]

  -- An act of any worker keeps the account balanced.
  pub step_at-Balanced :
      (n i : ℕ) (a : Act) (ls : List Local) (s : Shared)
      → Balanced (left_by c.weight ls + n) s
      → Balanced (left_by c.weight (step_at i a ls s).0 + n) (step_at i a ls s).1
  unfolding step_at
  step_at-Balanced n i a [] s h = h
  step_at-Balanced n zero a (l ∷ ls) s h = elim (Bool-cases (is_enabled a l)) [
    | inl enabled ↦
        rw (enabled, step_at)
          (omega (arith, act-Balanced (left_by c.weight ls + n) a l s enabled (omega arith)))
    | inr idle ↦ rw (idle, step_at) h
  ]
  step_at-Balanced n (suc i) a (l ∷ ls) s h =
      omega (arith, step_at-Balanced (left_of c.weight l.jobs + n) i a ls s (omega arith))

  pub step-Balanced :
      (i : ℕ) (a : Act) (p : Pool)
      → Balanced (left_by c.weight p.workers) p.shared
      → Balanced (left_by c.weight (step i a p).workers) (step i a p).shared
  unfolding step
  step-Balanced i a p h = omega (arith, step_at-Balanced 0 i a p.workers p.shared (omega arith))
