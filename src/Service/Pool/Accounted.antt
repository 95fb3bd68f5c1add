-- ===== src/Service/Pool/Accounted.antt =====
-- No event gets lost or is examined twice among the workers
-- (ingestion-service/internal/service/worker.go).
use multi_tenant_siem.Base.{
  ℕ, zero, suc, ◌+◌, ◌≤◌, ◌<◌, ◌≡◌, refl, inl, inr, Bool, true, false, Option, none, some, List, [],
  ◌∷◌, ◌++◌, arith, leb, if◌then◌else◌, Bool-cases, Option-cases, length, is_empty,
}
use multi_tenant_siem.Detection.Model.{Event, Alert}
use multi_tenant_siem.Detection.BruteForce.{detect_brute_force}
use multi_tenant_siem.Detection.WebScan.{detect_web_scan}
use multi_tenant_siem.Detection.Suppressor.{should_suppress_alert}
use multi_tenant_siem.Service.Worker.{batch_size}
use multi_tenant_siem.Service.Pool.{
  Job, brute_force, web_scan, suppress, store, tell, meter, notify, Answer, Shared, Local, create,
  run_job, jobs_of, insert_logs, begin_flush, Act, take, tick, go, is_enabled, do_jobs, act,
  taken_by, Pool, step_at, step, run,
}

-- How much is left of a job: the longest chain of jobs that it may bring about.
abbrev pub cost : Job → ℕ
cost (brute_force e) = 6
cost (web_scan e) = 6
cost (suppress a) = 5
cost (store a) = 4
cost (tell a) = 3
cost (meter a) = 2
cost (notify a) = 1

abbrev pub work_left : List Job → ℕ
work_left [] = 0
work_left (job ∷ rest) = cost job + work_left rest

pub work_left-append : (xs ys : List Job) → work_left (xs ++ ys) ≡ work_left xs + work_left ys
work_left-append [] ys = omega arith
work_left-append (x ∷ xs) ys = omega (arith, work_left-append xs ys)

work_left-create : (a : Option Alert) → work_left (create a) ≤ 5
work_left-create none = omega arith
work_left-create (some a) = omega arith

pub work_left-run_job :
    (r : Answer) (job : Job) (s : Shared) → work_left (run_job r job s).1 < cost job
unfolding run_job
work_left-run_job r (brute_force e) s =
    omega (arith, work_left-create (detect_brute_force r.now e s.logins).1)
work_left-run_job r (web_scan e) s =
    omega (arith, work_left-create (detect_web_scan r.now e s.scans).1)
work_left-run_job r (suppress a) s =
    elim (Bool-cases (should_suppress_alert r.now a s.alerts.suppressor).1) [
      | inl held ↦ rw (held, run_job) (omega arith)
      | inr fresh ↦ rw (fresh, run_job) (omega arith)
    ]
work_left-run_job r (store a) s = elim (Option-cases r.row) [
  | inl lost ↦ rw (lost, run_job) (omega arith)
  | inr (answer, stored) ↦ rw (stored, run_job) (omega arith)
]
work_left-run_job r (tell a) s = omega arith
work_left-run_job r (meter a) s = omega arith
work_left-run_job r (notify a) s = omega arith

module _ (p : Event → Bool) where
  abbrev pub one_if : Event → ℕ
  one_if e = if p e then 1 else 0

  -- How many of the events pass the test.
  abbrev pub tally : List Event → ℕ
  tally [] = 0
  tally (e ∷ es) = one_if e + tally es

  -- How many of the events that are still to be examined pass it.
  abbrev pub left_in : List Job → ℕ
  left_in [] = 0
  left_in (web_scan e ∷ rest) = one_if e + left_in rest
  left_in (_ ∷ rest) = left_in rest

  abbrev pub waiting : List Local → ℕ
  waiting [] = 0
  waiting (l ∷ ls) = tally l.batch + left_in l.jobs + waiting ls

  tally-append : (xs ys : List Event) → tally (xs ++ ys) ≡ tally xs + tally ys
  tally-append [] ys = omega arith
  tally-append (x ∷ xs) ys = omega (arith, tally-append xs ys)

  left_in-jobs_of : (es : List Event) → left_in (jobs_of es) ≡ tally es
  unfolding jobs_of
  left_in-jobs_of [] = refl
  left_in-jobs_of (e ∷ es) = omega (arith, left_in-jobs_of es)

  left_in-create : (a : Option Alert) (rest : List Job) → left_in (create a ++ rest) ≡ left_in rest
  left_in-create none rest = refl
  left_in-create (some a) rest = refl

  do_jobs_lem :
      (r : Answer) (jobs : List Job) (l : Local) (s : Shared)
      → l.jobs ≡ jobs
      → tally (do_jobs r jobs l s).1.examined + left_in (do_jobs r jobs l s).0.jobs
        ≡ tally s.examined + left_in jobs
  unfolding do_jobs run_job
  do_jobs_lem r [] l s e = rw e refl
  do_jobs_lem r (brute_force x ∷ rest) l s e = rw left_in-create refl
  do_jobs_lem r (web_scan x ∷ rest) l s e = rw (left_in-create, tally-append) (omega arith)
  do_jobs_lem r (suppress a ∷ rest) l s e =
      elim (Bool-cases (should_suppress_alert r.now a s.alerts.suppressor).1) [
        | inl held ↦ rw (held, run_job) refl
        | inr fresh ↦ rw (fresh, run_job) refl
      ]
  do_jobs_lem r (store a ∷ rest) l s e = elim (Option-cases r.row) [
    | inl lost ↦ rw (lost, run_job) refl
    | inr (answer, stored) ↦ rw (stored, run_job) refl
  ]
  do_jobs_lem r (tell a ∷ rest) l s e = refl
  do_jobs_lem r (meter a ∷ rest) l s e = refl
  do_jobs_lem r (notify a ∷ rest) l s e = refl

  no_jobs : (jobs : List Job) → is_empty jobs ≡ true → left_in jobs ≡ 0
  no_jobs [] e = refl
  no_jobs (job ∷ rest) e = absurd (cc e)

  batch-do_jobs :
      (r : Answer) (jobs : List Job) (l : Local) (s : Shared)
      → (do_jobs r jobs l s).0.batch ≡ l.batch
  unfolding do_jobs
  batch-do_jobs r [] l s = refl
  batch-do_jobs r (job ∷ rest) l s = refl

  begin_flush_lem :
      (commits : Bool) (l : Local) (s : Shared)
      → is_empty l.jobs ≡ true
      → tally (begin_flush commits l s).1.examined
          + (tally (begin_flush commits l s).0.batch + left_in (begin_flush commits l s).0.jobs)
        ≡ tally s.examined + tally l.batch
  unfolding begin_flush insert_logs
  begin_flush_lem commits l s idle = elim (Bool-cases (is_empty l.batch)) [
    | inl nothing ↦ rw (nothing, begin_flush) (rw (no_jobs l.jobs idle) (omega arith))
    | inr some_there ↦
        rw (some_there, begin_flush) (rw (left_in-jobs_of, logged commits) (omega arith))
  ]
    where
      logged : (c : Bool) → (insert_logs c l.batch s).examined ≡ s.examined
      logged true = refl
      logged false = refl

  act_lem :
      (a : Act) (l : Local) (s : Shared)
      → is_enabled a l ≡ true
      → tally (act a l s).1.examined + (tally (act a l s).0.batch + left_in (act a l s).0.jobs)
        ≡ tally s.examined + (tally l.batch + left_in l.jobs) + tally (taken_by a)
  unfolding act
  act_lem (go r) l s enabled = rw batch-do_jobs (omega (arith, do_jobs_lem r l.jobs l s refl))
  act_lem (tick commits) l s idle =
      omega (arith, begin_flush_lem commits l s idle, no_jobs l.jobs idle)
  act_lem (take e commits) l s idle =
      let l' = record l { batch = l.batch ++ e ∷ [] } in
      let more = tally-append l.batch (e ∷ []) in
      elim (Bool-cases (leb batch_size (length l'.batch))) [
        | inl full ↦
            rw (full, act)
              (omega (arith, begin_flush_lem commits l' s idle, no_jobs l.jobs idle, more))
        | inr room ↦ rw (room, act) (omega (arith, more))
      ]

  step_at_lem :
      (i : ℕ) (a : Act) (ls : List Local) (s : Shared)
      → tally (step_at i a ls s).1.examined + waiting (step_at i a ls s).0
        ≡ tally s.examined + waiting ls + tally (step_at i a ls s).2
  unfolding step_at
  step_at_lem i a [] s = omega arith
  step_at_lem zero a (l ∷ ls) s = elim (Bool-cases (is_enabled a l)) [
    | inl enabled ↦ rw (enabled, step_at) (omega (arith, act_lem a l s enabled))
    | inr idle ↦ rw (idle, step_at) (omega arith)
  ]
  step_at_lem (suc i) a (l ∷ ls) s = omega (arith, step_at_lem i a ls s)

  -- The events taken from the queue are those that were examined and those that wait.
  abbrev pub Accounted : Pool → Type 0
  Accounted q = tally q.received ≡ tally q.shared.examined + waiting q.workers

  -- However the workers' steps are interleaved and whatever the clock and the database answer: if, of
  -- the events that pass the test, as many were taken from the queue as have been through both
  -- detectors or wait in a batch or a flush, then it stays so. As the test may be any, no event is
  -- lost, and none is examined twice.
  pub run-Accounted : (acts : List (ℕ × Act)) (q : Pool) → Accounted q → Accounted (run acts q)
  unfolding run step
  run-Accounted [] q h = h
  run-Accounted ((i, a) ∷ rest) q h =
      run-Accounted rest (step i a q)
        (rw tally-append (omega (arith, h, step_at_lem i a q.workers q.shared)))
