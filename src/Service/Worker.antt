-- ===== src/Service/Worker.antt =====
-- ingestion-service/internal/service/worker.go with the repository of the logs,
-- ingestion-service/internal/repository/log_repository.go.
pub mod Batches
pub mod Heard
pub mod SixHits
pub mod System
use multi_tenant_siem.Base.{
  ℕ, zero, suc, ◌+◌, ◌-◌, ◌≤◌, ◌<◌, String, ◌≡◌, refl, sym, ap, ◌∙◌, ◌≢◌, ◌↔◌, ◌⊎◌, inl, inr, Bool,
  true, false, not, ◌&&◌, ◌||◌, Option, none, some, List, [], ◌∷◌, ◌++◌, arith, ltb, leb, ◌==◌,
  str_eq, eq_iff, eq_refl, if◌then◌else◌, Bool-cases, Option-cases, length, any, keep, All, Memᴰ,
  is_empty,
}
use multi_tenant_siem.Detection.Model.{Event, Alert}
use multi_tenant_siem.Detection.BruteForce.{FailedLogins, detect_brute_force}
use multi_tenant_siem.Detection.WebScan.{ScanMap, detect_web_scan}
use multi_tenant_siem.Service.Alerts.{AlertService, new_alert_service, Outcome, create_alert}

-- `batchSize`
abbrev pub batch_size : ℕ
batch_size = 500

-- What the clock and the database answer while one event is examined: the times that the two
-- detectors read and that the suppressor reads for their alerts, and the answers to the two INSERTs.
pub record Moment : Type 0 where
  pub brute_force_at : ℕ
  pub brute_force_alert_at : ℕ
  pub web_scan_at : ℕ
  pub web_scan_alert_at : ℕ
  pub brute_force_row : Option (ℕ × ℕ)
  pub web_scan_row : Option (ℕ × ℕ)

-- `logs`: the rows of committed batches. `examined`: a trace of the events that went through
-- detection. `errors`: the errors that were printed.
pub record Worker : Type 0 where
  pub batch : List Event
  pub logs : List Event
  pub events_processed : ℕ
  pub logins : FailedLogins
  pub scans : ScanMap
  pub alerts : AlertService
  pub examined : List Event
  pub errors : ℕ

abbrev pub new_worker : Worker
new_worker = record {
  batch = [];
  logs = [];
  events_processed = 0;
  logins = [];
  scans = [];
  alerts = new_alert_service;
  examined = [];
  errors = 0;
}

-- `if alert != nil { err := CreateAlert(*alert); if err != nil { … } }`
unfoldable pub raise : ℕ → Option (ℕ × ℕ) → Option Alert → Worker → Worker
unfolding create_alert
raise now row none w = w
raise now row (some alert) w =
    let (service, outcome) = create_alert now row alert w.alerts in
    record w {
      alerts = service;
      errors = w.errors + elim outcome [ Outcome.nil ↦ 0 | Outcome.failed ↦ 1 ];
    }

-- The body of the loop over the batch.
unfoldable pub examine : Moment → Event → Worker → Worker
unfolding detect_brute_force detect_web_scan raise
examine m event w =
    let (logins, brute_force) = detect_brute_force m.brute_force_at event w.logins in
    let w1 =
      raise m.brute_force_alert_at m.brute_force_row brute_force (record w { logins = logins }) in
    let (scans, web_scan) = detect_web_scan m.web_scan_at event w1.scans in
    let w2 = raise m.web_scan_alert_at m.web_scan_row web_scan (record w1 { scans = scans }) in
    record w2 { examined = w2.examined ++ event ∷ [] }

-- The loop: the moments are numbered by the events that were examined before.
unfoldable pub examine_all : (ℕ → Moment) → List Event → Worker → Worker
unfolding examine
examine_all m [] w = w
examine_all m (event ∷ events) w = examine_all m events (examine (m (length w.examined)) event w)

-- `InsertLogsBatch` in a transaction, which commits or not.
unfoldable pub insert_logs_batch : Bool → Worker → Worker
insert_logs_batch false w = record w { errors = w.errors + 1 }
insert_logs_batch true w = record w {
  logs = w.logs ++ w.batch;
  events_processed = w.events_processed + length w.batch;
}

-- `flush`
unfoldable pub flush : Bool → (ℕ → Moment) → Worker → Worker
unfolding insert_logs_batch examine_all
flush commits m w =
    if is_empty w.batch
    then w
    else record (examine_all m w.batch (insert_logs_batch commits w)) { batch = [] }

-- What the worker's `select` takes: an event, a tick, or the end of the queue.
pub data Input : Type 0 where
  event : Event → Input
  tick close : Input

unfoldable pub step : Bool → (ℕ → Moment) → Input → Worker → Worker
unfolding flush
step commits m (event e) w =
    let w1 = record w { batch = w.batch ++ e ∷ [] } in
    if leb batch_size (length w1.batch) then flush commits m w1 else w1
step commits m tick w = flush commits m w
step commits m close w = flush commits m w

-- The loop over what comes, until the queue is closed.
unfoldable pub work : (ℕ → Moment) → List (Input × Bool) → Worker → Worker
unfolding step
work m [] w = w
work m ((close, commits) ∷ _) w = step commits m close w
work m ((i, commits) ∷ rest) w = work m rest (step commits m i w)
