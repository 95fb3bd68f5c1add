-- ===== src/Examples/Services.antt =====
-- Runs of the hub, the alert service and a worker (ingestion-service/internal/websocket,
-- internal/service).
use multi_tenant_siem.Base.{
  ◌*◌, ℕ, ◌≡◌, refl, Bool, true, false, none, some, List, [], ◌∷◌, ◌++◌, arith, ◌==◌,
}
use multi_tenant_siem.Detection.Model.{Alert, minute}
use multi_tenant_siem.Detection.Store.{get, put}
use multi_tenant_siem.Detection.Suppressor.{key_of, is_repeat}
use multi_tenant_siem.Service.Hub.{Hub, new_hub}
use multi_tenant_siem.Service.Alerts.{AlertService, new_alert_service, create_alert}
use multi_tenant_siem.Service.Alerts
use multi_tenant_siem.Service.Alerts.Agreement.{create_alert_lost}
use multi_tenant_siem.Service.Worker
use multi_tenant_siem.Service.Worker.{
  Moment, Worker, Input, new_worker, flush, step, work, batch_size,
}
use multi_tenant_siem.Service.Worker.Batches.{taken, work_lem}
use multi_tenant_siem.Service.Worker.System.{Happening, serve, Remains}
use multi_tenant_siem.Examples.Detectors.{failure, raised}

abbrev pub other_alert : Alert
other_alert = record raised { tenant_id = "tenant_2" }

abbrev one_client : Hub
one_client = record new_hub { clients = 7 ∷ [] }

-- Another client fails to be reached.
abbrev seven_only : ℕ → Bool
seven_only c = c == 7

fresh : is_repeat 0 (get (key_of raised) []) ≡ false
unfolding get is_repeat
fresh = refl

create_alert_lost_example :
    create_alert (2 * minute) (some (1, 5)) raised (create_alert 0 none raised new_alert_service).0
    ≡ (record new_alert_service { suppressor = put (key_of raised) 0 [] }, Alerts.nil)
create_alert_lost_example =
    create_alert_lost 0 (2 * minute) (some (1, 5)) raised raised new_alert_service fresh refl
      (omega arith)

-- The database takes every alert; the clock ticks with the events.
abbrev pub moments : ℕ → Moment
moments n = record {
  brute_force_at = n * 1000000000;
  brute_force_alert_at = n * 1000000000;
  web_scan_at = n * 1000000000;
  web_scan_alert_at = n * 1000000000;
  brute_force_row = some (n, n);
  web_scan_row = some (n, n);
}

abbrev five : List (Worker.Input × Bool)
five =
    (Worker.event failure, true)
    ∷ (Worker.event failure, true)
    ∷ (Worker.tick, false)
    ∷ (Worker.event failure, true)
    ∷ []

work_lem_example :
    (taken (work moments five new_worker) ≡ failure ∷ failure ∷ failure ∷ [])
    × ((work moments (five ++ (Worker.close, true) ∷ []) new_worker).examined
        ≡ failure ∷ failure ∷ failure ∷ [])
work_lem_example = work_lem moments five true new_worker

abbrev pub happenings : List Happening
happenings =
    Happening.take (Worker.event failure) true
    ∷ Happening.take (Worker.event failure) true
    ∷ Happening.take (Worker.event failure) true
    ∷ Happening.take (Worker.event failure) true
    ∷ Happening.take (Worker.event failure) true
    ∷ Happening.join 8
    ∷ Happening.take Worker.tick false
    ∷ Happening.send seven_only
    ∷ []

abbrev pub one_listens : Worker
one_listens = record new_worker { alerts = record new_alert_service { hub = one_client } }

pub happenings_remain : Remains 7 happenings
happenings_remain = (refl, tt)

-- The five failures did raise an alert, which was sent.
one_was_sent :
    (serve moments happenings one_listens).alerts.stored
    ≡ record raised { id = 4; created_at = 4 } ∷ []
unfolding serve
one_was_sent = refl
