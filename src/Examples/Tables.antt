-- ===== src/Examples/Tables.antt =====
-- Texts that are longer than their columns (ingestion-service/internal/db/db.go).
use multi_tenant_siem.Base.{
  ℕ, ◌≡◌, refl, true, false, Option, none, some, List, [], ◌∷◌, arith, if◌then◌else◌, Memᴰ,
}
use multi_tenant_siem.Detection.Model.{Event, Alert}
use multi_tenant_siem.Detection.BruteForce.{brute_force_alert}
use multi_tenant_siem.Detection.WebScan.{web_scan_alert}
use multi_tenant_siem.Service.Tables.{
  log_row, fits_varchar, fits_columns, fits_alert_columns, Transaction, insert_rows,
}
use multi_tenant_siem.Service.Tables.Refused.{poisoned_batch}
use multi_tenant_siem.Service.Tables.Silent.{told, long_address_silent}
use multi_tenant_siem.Service.Worker.{Moment, Worker, new_worker, flush, examine_all}
use multi_tenant_siem.Service.Worker.Batches.{kept}
use multi_tenant_siem.Http.Ingest.{validate_log, ingest_log, answered}
use multi_tenant_siem.Examples.Detectors.{failure}
use multi_tenant_siem.Examples.Services.{moments}

-- A level of 21 characters.
abbrev long_level : Event
long_level = record failure { timestamp = 5; severity = "ABCDEFGHIJKLMNOPQRSTU" }

abbrev strict : Transaction
strict = record { begins = true; prepares = true; takes = fits_columns; commits = true }

abbrev loaded : Worker
loaded = record new_worker { batch = failure ∷ long_level ∷ failure ∷ [] }

its_row : fits_columns (log_row long_level) ≡ false
unfolding fits_columns
its_row = refl

its_check : validate_log 7 long_level ≡ none
unfolding validate_log
its_check = refl

poisoned_batch_example :
    (ingest_log 7 (some long_level) [] ≡ answered 202 "log stored successfully" (long_level ∷ []))
    × (insert_rows strict loaded.batch [] ≡ ([], false))
    × (kept (flush (insert_rows strict loaded.batch []).1 moments loaded)
        ≡ ([], [], 0, failure ∷ long_level ∷ failure ∷ []))
poisoned_batch_example =
    poisoned_batch strict 7 long_level [] [] moments loaded (λ r h. h) its_row its_check
      (omega arith) (Memᴰ.tail (Memᴰ.head refl))

-- The database takes the alerts that fit, and gives them one id.
abbrev insert : Alert → Option (ℕ × ℕ)
insert a = if fits_alert_columns a then some (1, 5) else none

insert-refuses : (a : Alert) → fits_alert_columns a ≡ false → insert a ≡ none
insert-refuses a h = rw h refl

-- An address of 46 characters, which fails five times.
abbrev hidden : Event
hidden = record failure { ip_address = "1111:2222:3333:4444:5555:6666:7777:8888:9999:0" }

abbrev hidden_five : List Event
hidden_five = hidden ∷ hidden ∷ hidden ∷ hidden ∷ hidden ∷ []

abbrev answers : ℕ → Moment
answers n = record {
  brute_force_at = n;
  brute_force_alert_at = n;
  web_scan_at = n;
  web_scan_alert_at = n;
  brute_force_row = insert (brute_force_alert hidden);
  web_scan_row = insert (web_scan_alert hidden);
}

hidden_long : fits_varchar 45 hidden.ip_address ≡ false
unfolding fits_varchar
hidden_long = refl

long_address_silent_example :
    told (examine_all answers hidden_five new_worker).alerts ≡ told new_worker.alerts
long_address_silent_example =
    long_address_silent insert answers hidden_five new_worker insert-refuses
      (refl, refl, (refl, refl, (refl, refl, (refl, refl, (refl, refl, tt)))))
      (hidden_long, (hidden_long, (hidden_long, (hidden_long, (hidden_long, tt)))))
