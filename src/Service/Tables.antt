-- ===== src/Service/Tables.antt =====
-- The tables of ingestion-service/internal/db/db.go (`createTables`), and the transaction of
-- `InsertLogsBatch`, ingestion-service/internal/repository/log_repository.go.
pub mod Refused
pub mod Silent
use multi_tenant_siem.Base.{
  ℕ, zero, suc, ◌+◌, ◌-◌, ◌*◌, ◌≤◌, ◌<◌, String, ◌≡◌, refl, sym, ap, ◌∙◌, ◌≢◌, ◌↔◌, ◌⊎◌, inl, inr,
  Bool, true, false, not, ◌&&◌, ◌||◌, Option, none, some, List, [], ◌∷◌, ◌++◌, arith, ltb, leb,
  ◌==◌, str_eq, eq_iff, eq_refl, if◌then◌else◌, Bool-cases, Option-cases, length, any, keep, All,
  Memᴰ, append_assoc, append-nil, any-append, map, concat, is_empty, All-mem, All-keep_of_All,
  All-of_mem, All-append, ==_iff,
}
use Prim.Native.Char.{code}
use multi_tenant_siem.Js.{Fields}
use multi_tenant_siem.Detection.Model.{Event, Alert}

-- A row, without the id that the database gives it.
pub record Row : Type 0 where
  pub timestamp : ℕ
  pub tenant_id : String
  pub service : String
  pub level : String
  pub message : String
  pub metadata : Fields

-- The arguments of the INSERT.
abbrev pub log_row : Event → Row
log_row event = record {
  timestamp = event.timestamp;
  tenant_id = event.tenant_id;
  service = event.source;
  level = event.severity;
  message = event.message;
  metadata = event.payload;
}

-- A text that VARCHAR(n) takes: it has at most n characters, or only spaces behind them.
unfoldable pub fits_varchar : ℕ → String → Bool
fits_varchar n String.[] = true
fits_varchar zero (String.◌∷◌ c s) = code c == b' ' && fits_varchar zero s
fits_varchar (suc n) (String.◌∷◌ c s) = fits_varchar n s

-- The columns of `logs` that have a length.
unfoldable pub fits_columns : Row → Bool
unfolding fits_varchar
fits_columns r =
    fits_varchar 50 r.tenant_id && (fits_varchar 50 r.service && fits_varchar 20 r.level)

-- The columns of `alerts` that have a length.
unfoldable pub fits_alert_columns : Alert → Bool
unfolding fits_varchar
fits_alert_columns a =
    fits_varchar 50 a.tenant_id
    && (fits_varchar 50 a.alert_type && (fits_varchar 20 a.severity && fits_varchar 45 a.source_ip))

-- What the database answers during one call: to Begin, Prepare and Commit, and whether it takes a
-- row.
pub record Transaction : Type 0 where
  pub begins : Bool
  pub prepares : Bool
  pub takes : Row → Bool
  pub commits : Bool

-- The loop over the batch: the rows of the open transaction, or `none` after a rollback.
unfoldable pub exec_all : (Row → Bool) → List Event → List Row → Option (List Row)
exec_all takes [] rows = some rows
exec_all takes (event ∷ rest) rows =
    if takes (log_row event) then exec_all takes rest (rows ++ log_row event ∷ []) else none

-- `InsertLogsBatch`: the rows of the table after it, and whether it returned nil.
unfoldable pub insert_rows : Transaction → List Event → List Row → List Row × Bool
unfolding exec_all
insert_rows t [] table = (table, true)
insert_rows t batch table =
    if not t.begins
    then (table, false)
    else if not t.prepares
    then (table, false)
    else elim (exec_all t.takes batch []) [
      | none ↦ (table, false)
      | some rows ↦ if t.commits then (table ++ rows, true) else (table, false)
    ]
