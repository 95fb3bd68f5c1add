-- ===== src/Service/Tables/Refused.antt =====
-- What a row that the table refuses does to its batch (ingestion-service/internal/repository and
-- internal/service/worker.go).
use multi_tenant_siem.Base.{
  ℕ, ◌<◌, ◌≡◌, refl, sym, ap, ◌∙◌, ◌⊎◌, inl, inr, Bool, true, false, none, some, List, [], ◌∷◌,
  ◌++◌, arith, if◌then◌else◌, Bool-cases, length, Memᴰ, append_assoc, append-nil, map,
}
use mathlib.Core.List.{map-append}
use multi_tenant_siem.Detection.Model.{Event}
use multi_tenant_siem.Http.Ingest.{validate_log, capacity, ingest_log, enqueue_log, answered}
use multi_tenant_siem.Service.Tables.{
  Row, log_row, fits_columns, Transaction, exec_all, insert_rows,
}
use multi_tenant_siem.Service.Worker.{Moment, Worker, flush}
use multi_tenant_siem.Service.Worker.Batches.{kept, flushed, flush_lem}

-- The rows of a batch.
abbrev pub log_rows : List Event → List Row
log_rows = map log_row

exec_all_lem :
    (takes : Row → Bool) (es : List Event) (rows : List Row)
    → (exec_all takes es rows ≡ some (rows ++ log_rows es)) ⊎ (exec_all takes es rows ≡ none)
unfolding exec_all
exec_all_lem takes [] rows = inl (ap some (sym (append-nil rows)))
exec_all_lem takes (e ∷ es) rows = elim (Bool-cases (takes (log_row e))) [
  | inl taken ↦ elim (exec_all_lem takes es (rows ++ log_row e ∷ [])) [
    | inl all ↦
        inl
          (rw (taken, exec_all) (all ∙ ap some (append_assoc rows (log_row e ∷ []) (log_rows es))))
    | inr lost ↦ inr (rw (taken, exec_all) lost)
  ]
  | inr refused ↦ inr (rw (refused, exec_all) refl)
]

exec_all-refused :
    (takes : Row → Bool) (e : Event) (es : List Event) (rows : List Row)
    → Memᴰ e es
    → takes (log_row e) ≡ false
    → exec_all takes es rows ≡ none
unfolding exec_all
exec_all-refused takes e [] rows m h = elim m [ ]
exec_all-refused takes e (x ∷ es) rows (Memᴰ.head same) h = rw (← same, h, exec_all) refl
exec_all-refused takes e (x ∷ es) rows (Memᴰ.tail m) h = elim (Bool-cases (takes (log_row x))) [
  | inl taken ↦ rw (taken, exec_all) (exec_all-refused takes e es (rows ++ log_row x ∷ []) m h)
  | inr refused ↦ rw (refused, exec_all) refl
]

-- All or nothing: the call returns nil and the table has all rows of the batch, in order, behind the
-- rows that it had, or it returns an error and the table is what it was.
pub insert_rows_lem :
    (t : Transaction) (es : List Event) (table : List Row)
    → insert_rows t es table ≡ (
      if (insert_rows t es table).1 then table ++ log_rows es else table,
      (insert_rows t es table).1,
    )
unfolding insert_rows
insert_rows_lem t [] table = ap (λ (rs : List Row). (rs, true)) (sym (append-nil table))
insert_rows_lem t (e ∷ es) table = elim (exec_all_lem t.takes (e ∷ es) []) [
  | inl all ↦ rw (all, insert_rows) (ground arith)
  | inr lost ↦ rw (lost, insert_rows) (ground arith)
]

insert_rows-refused :
    (t : Transaction) (e : Event) (es : List Event) (table : List Row)
    → Memᴰ e es
    → t.takes (log_row e) ≡ false
    → insert_rows t es table ≡ (table, false)
unfolding insert_rows
insert_rows-refused t e [] table m h = elim m [ ]
insert_rows-refused t e (x ∷ es) table m h =
    rw (exec_all-refused t.takes e (x ∷ es) [] m h, insert_rows) (ground arith)

-- One event is enough to lose a batch. If the database refuses rows whose texts are longer than
-- their columns, POST /logs answers 202 to an event with such a text all the same, where it passes
-- the validator and the queue has room; and in whatever batch the event stands, none of the batch is
-- stored or counted: the table, the logs and the count are what they were, the batch is cleared, and
-- its events have gone through detection.
pub poisoned_batch :
    (t : Transaction) (now : ℕ) (e : Event) (queue : List Event) (table : List Row) (m : ℕ → Moment)
    (w : Worker)
    → ((r : Row) → fits_columns r ≡ false → t.takes r ≡ false)
    → fits_columns (log_row e) ≡ false
    → validate_log now e ≡ none
    → length queue < capacity
    → Memᴰ e w.batch
    → (ingest_log now (some e) queue ≡ answered 202 "log stored successfully" (queue ++ e ∷ []))
      × (insert_rows t w.batch table ≡ (table, false))
      × (kept (flush (insert_rows t w.batch table).1 m w)
          ≡ ([], w.logs, w.events_processed, w.examined ++ w.batch))
unfolding ingest_log enqueue_log
poisoned_batch t now e queue table m w refuses long valid room there =
    let lost = insert_rows-refused t e w.batch table there (refuses (log_row e) long) in
    (
      rw (valid, ingest_log) (ground arith),
      lost,
      flush_lem (insert_rows t w.batch table).1 m w
          ∙ ap (λ (r : List Row × Bool). flushed r.1 w.batch w) lost,
    )

-- The logs of the worker are the rows of the table.
pub log_rows-flush :
    (t : Transaction) (m : ℕ → Moment) (w : Worker)
    → log_rows (flush (insert_rows t w.batch (log_rows w.logs)).1 m w).logs
      ≡ (insert_rows t w.batch (log_rows w.logs)).0
log_rows-flush t m w =
    let (rows, ok) = insert_rows t w.batch (log_rows w.logs) in
    ap (λ k. log_rows k.1) (flush_lem ok m w)
    ∙ stored ok
    ∙ sym (ap (λ (r : List Row × Bool). r.0) (insert_rows_lem t w.batch (log_rows w.logs)))
  where
    stored :
        (ok : Bool)
        → log_rows (if ok then w.logs ++ w.batch else w.logs)
          ≡ (if ok then log_rows w.logs ++ log_rows w.batch else log_rows w.logs)
    stored true = map-append log_row w.logs w.batch
    stored false = refl
