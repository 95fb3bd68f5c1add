-- ===== src/Examples/Workers.antt =====
-- Two workers side by side (ingestion-service/internal/service/worker.go).
use multi_tenant_siem.Base.{
  ℕ, ◌≡◌, refl, Bool, true, false, none, some, List, [], ◌∷◌, str_eq, arith,
}
use multi_tenant_siem.Js.{end}
use multi_tenant_siem.Detection.Model.{Alert, Event}
use multi_tenant_siem.Service.Alerts.{new_alert_service}
use multi_tenant_siem.Service.Pool
use multi_tenant_siem.Service.Pool.{Answer, Shared, Local, Act, Pool, act, jobs_of, run}
use multi_tenant_siem.Service.Pool.Served
use multi_tenant_siem.Service.Pool.Served.{IsServed, serve_all, serve_all-IsServed}
use multi_tenant_siem.Service.Pool.Refines.{pool_with, going}
use multi_tenant_siem.Service.Pool.Completes.{flush_completes}
use multi_tenant_siem.Service.Pipeline.{
  Happening, posted, message, takes_next, goes_on, ticks, Pipeline, happen_all,
}
use multi_tenant_siem.Service.Pipeline.Flow.{IsFlowing, happen_all-IsFlowing}
use multi_tenant_siem.Service.Hub.{new_hub}
use multi_tenant_siem.Service.Worker.{Moment}
use multi_tenant_siem.Examples.Detectors.{raised, failure, event_from}

abbrev nothing_done : Shared
nothing_done = record {
  logs = [];
  events_processed = 0;
  logins = [];
  scans = [];
  alerts = new_alert_service;
  examined = [];
  errors = 0;
}

abbrev idle : Local
idle = record { batch = []; jobs = [] }

abbrev two_workers : Pool
two_workers = record { shared = nothing_done; workers = idle ∷ idle ∷ []; received = [] }

abbrev other : Event
other = event_from "tenant_2" "10.0.0.9" "ssh" end

abbrev now : Answer
now = record { now = 5; row = none }

-- The second worker takes an event between two jobs of the first one's flush.
abbrev acts : List (ℕ × Act)
acts =
    (0, Act.take failure true)
    ∷ (0, Act.tick false)
    ∷ (0, Act.go now)
    ∷ (1, Act.take other true)
    ∷ (0, Act.go now)
    ∷ (1, Act.tick true)
    ∷ []

abbrev is_first : Event → Bool
is_first e = str_eq e.tenant_id "tenant_1"

abbrev flushing : Local
flushing = record { batch = []; jobs = Pool.brute_force failure ∷ Pool.web_scan failure ∷ [] }

first_done : (run acts two_workers).shared.examined ≡ failure ∷ []
unfolding run
first_done = refl

abbrev pub found : Answer
found = record { now = 5; row = some (1, 7) }

-- The fifth failure: its alert is stored and not broadcast yet.
abbrev alarmed : Pool
alarmed = record two_workers {
  shared = record nothing_done {
    logins = ("tenant_1:10.0.0.7", record { count = 4; last_attempt = 0 }) ∷ [];
  };
}

abbrev alarm : List (ℕ × Act)
alarm =
    (0, Act.take failure true)
    ∷ (0, Act.tick true)
    ∷ (0, Act.go found)
    ∷ (0, Act.go found)
    ∷ (0, Act.go found)
    ∷ []

abbrev is_high : Alert → Bool
is_high a = str_eq a.severity "HIGH"

-- The same with a client, which is sent the alert before its notification begins.
abbrev pub watched : Pool
watched = record alarmed {
  shared = record alarmed.shared {
    alerts = record new_alert_service { hub = record new_hub { clients = 7 ∷ [] } };
  };
}

abbrev pub all_there : ℕ → Bool
all_there c = true

abbrev served : List Served.Happening
served =
    Served.works 0 (Act.take failure true)
    ∷ Served.works 0 (Act.tick true)
    ∷ Served.works 0 (Act.go found)
    ∷ Served.works 0 (Act.go found)
    ∷ Served.works 0 (Act.go found)
    ∷ Served.works 1 (Act.take other true)
    ∷ Served.works 0 (Act.go found)
    ∷ Served.send all_there
    ∷ []

serve_all-IsServed_example : IsServed 7 is_high (λ l. true) 0 (serve_all served watched)
serve_all-IsServed_example =
    serve_all-IsServed 7 is_high (λ l. true) 0 served watched (refl, tt)
      (record { linked = refl; told = refl; notified = refl; counted = refl })

was_sent :
    (serve_all served watched).shared.alerts.hub.sent
    ≡ (7, record raised { id = 1; created_at = 7 } ∷ []) ∷ []
unfolding serve_all
was_sent = refl

one_stored :
    (run alarm alarmed).shared.alerts.stored ≡ record raised { id = 1; created_at = 7 } ∷ []
unfolding run
one_stored = refl

-- A batch of one event, and a database that fails.
flush_completes_example :
    (s' : Shared) × (run
        ((0, Act.tick false)
          ∷ going (now ∷ now ∷ now ∷ now ∷ now ∷ now ∷ now ∷ now ∷ now ∷ now ∷ now ∷ now ∷ []))
        (pool_with nothing_done (failure ∷ []) [] (failure ∷ []))
      ≡ pool_with s' [] [] (failure ∷ []))
    × (s'.examined ≡ failure ∷ [])
flush_completes_example =
    flush_completes false
      (now ∷ now ∷ now ∷ now ∷ now ∷ now ∷ now ∷ now ∷ now ∷ now ∷ now ∷ now ∷ []) (failure ∷ [])
      nothing_done (failure ∷ []) (omega arith)

abbrev moment : Moment
moment = record {
  brute_force_at = 1;
  brute_force_alert_at = 2;
  web_scan_at = 3;
  web_scan_alert_at = 4;
  brute_force_row = none;
  web_scan_row = none;
}

-- A log is posted, one comes from Kafka, and the second worker takes the first of them.
abbrev dated : Event
dated = record failure { timestamp = 5 }

abbrev happenings : List Happening
happenings =
    posted 1000 (some dated)
    ∷ message (some other)
    ∷ posted 1000 none
    ∷ takes_next 1 true
    ∷ ticks 1 true
    ∷ goes_on 1 now
    ∷ []

abbrev empty_pipeline : Pipeline
empty_pipeline = record { pool = two_workers; queue = []; accepted = [] }

happen_all-IsFlowing_example : IsFlowing is_first (happen_all happenings empty_pipeline)
happen_all-IsFlowing_example =
    happen_all-IsFlowing is_first happenings empty_pipeline (refl, omega arith, refl)

first_taken : (happen_all happenings empty_pipeline).pool.received ≡ dated ∷ []
unfolding happen_all
first_taken = refl
