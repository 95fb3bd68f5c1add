-- ===== src/Detection/Model.antt =====
-- ingestion-service/internal/events/event.go and internal/model/alert.go. A time is a number of
-- nanoseconds, and what `json:"…"` names is the name of the field.
use multi_tenant_siem.Base.{ℕ, String}
use multi_tenant_siem.Js.{Fields}

-- `Payload` is a JSON object; its other values are not read.
pub record Event : Type 0 where
  pub tenant_id : String
  pub source : String
  pub event_type : String
  pub timestamp : ℕ
  pub severity : String
  pub ip_address : String
  pub hostname : String
  pub message : String
  pub payload : Fields

pub record Alert : Type 0 where
  pub id : ℕ
  pub tenant_id : String
  pub alert_type : String
  pub severity : String
  pub message : String
  pub source_ip : String
  pub created_at : ℕ

-- `time.Minute`
abbrev pub minute : ℕ
minute = 60000000000
