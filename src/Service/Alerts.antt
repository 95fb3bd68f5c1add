-- ===== src/Service/Alerts.antt =====
-- ingestion-service/internal/service/alert_service.go with the repository of the alerts,
-- ingestion-service/internal/repository/alert_repository.go. What the database answers to the
-- INSERT, the new id and time or an error, is an argument.
pub mod Agreement
use multi_tenant_siem.Base.{
  ℕ, zero, suc, ◌+◌, ◌-◌, ◌≤◌, ◌<◌, String, ◌≡◌, refl, sym, ap, ◌∙◌, ◌≢◌, ◌↔◌, ◌⊎◌, inl, inr, Bool,
  true, false, not, ◌&&◌, ◌||◌, Option, none, some, List, [], ◌∷◌, ◌++◌, arith, ltb, leb, ◌==◌,
  str_eq, eq_iff, eq_refl, if◌then◌else◌, Bool-cases, Option-cases, length, any, keep, All, Memᴰ,
}
use multi_tenant_siem.Detection.Model.{Alert}
use multi_tenant_siem.Detection.Suppressor.{AlertMap, should_suppress_alert}
use multi_tenant_siem.Service.Hub.{Hub, new_hub, broadcast}

-- `suppressor` is `alertMap`. Traces: `stored` of the rows that the database acknowledged,
-- `generated` of the labels under which the metric went up, `slack` of the notifications begun.
pub record AlertService : Type 0 where
  pub suppressor : AlertMap
  pub stored : List Alert
  pub hub : Hub
  pub generated : List (String × String)
  pub slack : List Alert

abbrev pub new_alert_service : AlertService
new_alert_service = record {
  suppressor = [];
  stored = [];
  hub = new_hub;
  generated = [];
  slack = [];
}

-- The repository's `CreateAlert`: the alert with the id and the time of its row.
abbrev pub stored_alert : Alert → ℕ × ℕ → Alert
stored_alert alert (id, created_at) = record alert { id = id; created_at = created_at }

-- What a call returns: `nil`, or the error of the database.
pub data Outcome : Type 0 where
  nil failed : Outcome

-- The row that the database acknowledged.
unfoldable pub add_row : Alert → AlertService → AlertService
add_row alert s = record s { stored = s.stored ++ alert ∷ [] }

-- The steps after the INSERT: `websocket.WS.Broadcast`, the metric, and `go sendSlackNotification`.
unfoldable pub tell_hub : Alert → AlertService → AlertService
unfolding broadcast
tell_hub alert s = record s { hub = broadcast alert s.hub }

unfoldable pub count_generated : Alert → AlertService → AlertService
count_generated alert s = record s {
  generated = s.generated ++ (alert.alert_type, alert.severity) ∷ [];
}

unfoldable pub begin_slack : Alert → AlertService → AlertService
begin_slack alert s = record s { slack = s.slack ++ alert ∷ [] }

unfoldable pub announce : Alert → AlertService → AlertService
unfolding tell_hub count_generated begin_slack
announce alert s = begin_slack alert (count_generated alert (tell_hub alert s))

-- The service's `CreateAlert`
unfoldable pub create_alert : ℕ → Option (ℕ × ℕ) → Alert → AlertService → AlertService × Outcome
unfolding should_suppress_alert announce add_row
create_alert now row alert s =
    let (seen, suppressed) = should_suppress_alert now alert s.suppressor in
    let s1 = record s { suppressor = seen } in
    if suppressed then (s1, nil) else elim row [
      | none ↦ (s1, failed)
      | some answer ↦ let a = stored_alert alert answer in (announce a (add_row a s1), nil)
    ]
