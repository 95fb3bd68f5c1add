-- ===== src/Service/Pool.antt =====
-- The workers of ingestion-service/internal/service/worker.go side by side. They share the maps of
-- the detectors, the suppressor, the database and the hub, each under its own mutex, so a worker's
-- flush is a list of jobs, and between two jobs other workers run.
pub mod Accounted
pub mod Ledger
pub mod Accounts
pub mod Served
pub mod Alone
pub mod Refines
pub mod Completes
use multi_tenant_siem.Base.{
  ℕ, zero, suc, ◌+◌, ◌-◌, ◌≤◌, ◌<◌, String, ◌≡◌, refl, sym, ap, ◌∙◌, ◌≢◌, ◌↔◌, ◌⊎◌, inl, inr, Bool,
  true, false, not, ◌&&◌, ◌||◌, Option, none, some, List, [], ◌∷◌, ◌++◌, arith, ltb, leb, ◌==◌,
  str_eq, eq_iff, eq_refl, if◌then◌else◌, Bool-cases, Option-cases, length, any, keep, All, Memᴰ,
  is_empty,
}
use multi_tenant_siem.Detection.Model.{Event, Alert}
use multi_tenant_siem.Detection.BruteForce.{FailedLogins, detect_brute_force}
use multi_tenant_siem.Detection.WebScan.{ScanMap, detect_web_scan}
use multi_tenant_siem.Detection.Suppressor.{should_suppress_alert}
use multi_tenant_siem.Service.Alerts.{
  add_row, AlertService, stored_alert, tell_hub, count_generated, begin_slack,
}
use multi_tenant_siem.Service.Worker.{batch_size}

-- What is done at a time: a call of a detector, and of `CreateAlert` the test for repeats, the
-- INSERT, the broadcast, the metric, and the start of the notification.
pub data Job : Type 0 where
  brute_force web_scan : Event → Job
  suppress store tell meter notify : Alert → Job

-- What the clock and the database answer to a job.
pub record Answer : Type 0 where
  pub now : ℕ
  pub row : Option (ℕ × ℕ)

-- `examined`: a trace of the events that have gone through both detectors.
pub record Shared : Type 0 where
  pub logs : List Event
  pub events_processed : ℕ
  pub logins : FailedLogins
  pub scans : ScanMap
  pub alerts : AlertService
  pub examined : List Event
  pub errors : ℕ

-- `jobs`: what is left of a flush. (`batch = batch[:0]` at the end of a flush is made at its start,
-- since the worker does not look at the batch in between.)
pub record Local : Type 0 where
  pub batch : List Event
  pub jobs : List Job

-- `if alert != nil { CreateAlert(*alert) }`
abbrev pub create : Option Alert → List Job
create none = []
create (some a) = suppress a ∷ []

-- A job, and the jobs that it brings about.
unfoldable pub run_job : Answer → Job → Shared → Shared × List Job
unfolding detect_brute_force detect_web_scan should_suppress_alert tell_hub count_generated
    begin_slack add_row
run_job r (brute_force e) s =
    let (logins, alert) = detect_brute_force r.now e s.logins in
    (record s { logins = logins }, create alert)
run_job r (web_scan e) s =
    let (scans, alert) = detect_web_scan r.now e s.scans in
    (record s { scans = scans; examined = s.examined ++ e ∷ [] }, create alert)
run_job r (suppress a) s =
    let (seen, suppressed) = should_suppress_alert r.now a s.alerts.suppressor in
    (
      record s { alerts = record s.alerts { suppressor = seen } },
      if suppressed then [] else store a ∷ [],
    )
run_job r (store a) s = elim r.row [
  | none ↦ (record s { errors = s.errors + 1 }, [])
  | some answer ↦ (
    record s { alerts = add_row (stored_alert a answer) s.alerts },
    tell (stored_alert a answer) ∷ [],
  )
]
run_job r (tell a) s = (record s { alerts = tell_hub a s.alerts }, meter a ∷ [])
run_job r (meter a) s = (record s { alerts = count_generated a s.alerts }, notify a ∷ [])
run_job r (notify a) s = (record s { alerts = begin_slack a s.alerts }, [])

-- The loop over the batch.
unfoldable pub jobs_of : List Event → List Job
jobs_of [] = []
jobs_of (e ∷ es) = brute_force e ∷ web_scan e ∷ jobs_of es

-- `InsertLogsBatch`
unfoldable pub insert_logs : Bool → List Event → Shared → Shared
insert_logs false batch s = record s { errors = s.errors + 1 }
insert_logs true batch s = record s {
  logs = s.logs ++ batch;
  events_processed = s.events_processed + length batch;
}

-- The beginning of `flush`.
unfoldable pub begin_flush : Bool → Local → Shared → Local × Shared
unfolding insert_logs jobs_of
begin_flush commits l s =
    if is_empty l.batch
    then (l, s)
    else (record { batch = []; jobs = jobs_of l.batch }, insert_logs commits l.batch s)

-- What a worker does: it takes an event from the queue, takes a tick, or does its next job. It takes
-- events and ticks only between two flushes.
pub data Act : Type 0 where
  take : Event → Bool → Act
  tick : Bool → Act
  go : Answer → Act

-- Whether the act is possible.
abbrev pub is_enabled : Act → Local → Bool
is_enabled (take e commits) l = is_empty l.jobs
is_enabled (tick commits) l = is_empty l.jobs
is_enabled (go r) l = not (is_empty l.jobs)

unfoldable pub do_jobs : Answer → List Job → Local → Shared → Local × Shared
unfolding run_job
do_jobs r [] l s = (l, s)
do_jobs r (job ∷ rest) l s =
    let (s', more) = run_job r job s in (record l { jobs = more ++ rest }, s')

unfoldable pub act : Act → Local → Shared → Local × Shared
unfolding begin_flush do_jobs
act (take e commits) l s =
    let l' = record l { batch = l.batch ++ e ∷ [] } in
    if leb batch_size (length l'.batch) then begin_flush commits l' s else (l', s)
act (tick commits) l s = begin_flush commits l s
act (go r) l s = do_jobs r l.jobs l s

-- The events that an act takes from the queue.
abbrev pub taken_by : Act → List Event
taken_by (take e commits) = e ∷ []
taken_by (tick commits) = []
taken_by (go r) = []

-- `received`: a trace of the events taken from the queue by any worker.
pub record Pool : Type 0 where
  pub shared : Shared
  pub workers : List Local
  pub received : List Event

-- Worker `i`
unfoldable pub local_at : ℕ → List Local → Option Local
local_at i [] = none
local_at zero (l ∷ ls) = some l
local_at (suc i) (l ∷ ls) = local_at i ls

-- Worker `i` acts; an act that is not possible changes nothing.
unfoldable pub step_at : ℕ → Act → List Local → Shared → List Local × Shared × List Event
unfolding act
step_at i a [] s = ([], s, [])
step_at zero a (l ∷ ls) s =
    if is_enabled a l
    then (let (l', s') = act a l s in (l' ∷ ls, s', taken_by a))
    else (l ∷ ls, s, [])
step_at (suc i) a (l ∷ ls) s = let (ls', s', es) = step_at i a ls s in (l ∷ ls', s', es)

unfoldable pub step : ℕ → Act → Pool → Pool
unfolding step_at
step i a p =
    let (ls, s, es) = step_at i a p.workers p.shared in
    record { shared = s; workers = ls; received = p.received ++ es }

-- The acts of the workers in any order.
unfoldable pub run : List (ℕ × Act) → Pool → Pool
unfolding step
run [] p = p
run ((i, a) ∷ rest) p = run rest (step i a p)
