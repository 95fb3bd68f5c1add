-- ===== src/Service/Worker/Batches.antt =====
-- The batches of a worker (ingestion-service/internal/service/worker.go).
use multi_tenant_siem.Base.{
  ℕ, ◌+◌, ◌<◌, ◌≡◌, refl, sym, ap, ◌∙◌, inl, inr, Bool, true, false, Option, none, some, List, [],
  ◌∷◌, ◌++◌, arith, leb, if◌then◌else◌, Bool-cases, length, append-nil, append_assoc, is_empty,
}
use multi_tenant_siem.Detection.Model.{Event, Alert}
use multi_tenant_siem.Detection.BruteForce.{detect_brute_force}
use multi_tenant_siem.Detection.WebScan.{detect_web_scan}
use multi_tenant_siem.Service.Worker.{
  Moment, Worker, batch_size, raise, examine, examine_all, insert_logs_batch, flush, Input, event,
  tick, close, step, work,
}

-- Detection changes neither the batch nor the logs.
abbrev pub Kept : Type 0
Kept = List Event × List Event × ℕ × List Event

abbrev pub kept : Worker → Kept
kept w = (w.batch, w.logs, w.events_processed, w.examined)

abbrev grown : List Event → Kept → Kept
grown es (batch, logs, processed, examined) = (batch, logs, processed, examined ++ es)

abbrev emptied : Kept → Kept
emptied (batch, logs, processed, examined) = ([], logs, processed, examined)

kept-raise :
    (now : ℕ) (row : Option (ℕ × ℕ)) (a : Option Alert) (w : Worker)
    → kept (raise now row a w) ≡ kept w
unfolding raise
kept-raise now row none w = refl
kept-raise now row (some a) w = refl

pub kept-examine :
    (m : Moment) (e : Event) (w : Worker) → kept (examine m e w) ≡ grown (e ∷ []) (kept w)
unfolding examine
kept-examine m e w =
    let b = detect_brute_force m.brute_force_at e w.logins in
    let w1 = raise m.brute_force_alert_at m.brute_force_row b.1 (record w { logins = b.0 }) in
    let s = detect_web_scan m.web_scan_at e w1.scans in
    ap (grown (e ∷ [])) (
      kept-raise m.web_scan_alert_at m.web_scan_row s.1 (record w1 { scans = s.0 })
      ∙ kept-raise m.brute_force_alert_at m.brute_force_row b.1 (record w { logins = b.0 }))

kept-examine_all :
    (m : ℕ → Moment) (es : List Event) (w : Worker) → kept (examine_all m es w) ≡ grown es (kept w)
unfolding examine_all
kept-examine_all m [] w =
    ap (λ (xs : List Event). (w.batch, w.logs, w.events_processed, xs))
      (sym (append-nil w.examined))
kept-examine_all m (e ∷ es) w =
    kept-examine_all m es (examine (m (length w.examined)) e w)
    ∙ ap (grown es) (kept-examine (m (length w.examined)) e w)
    ∙ ap (λ (xs : List Event). (w.batch, w.logs, w.events_processed, xs))
        (append_assoc w.examined (e ∷ []) es)

-- What a flush makes of a batch: nothing waits, and all of it is examined; it is logged and counted
-- if the database commits.
abbrev pub flushed : Bool → List Event → Worker → Kept
flushed commits batch w = (
  [],
  (if commits then w.logs ++ batch else w.logs),
  (if commits then w.events_processed + length batch else w.events_processed),
  w.examined ++ batch,
)

-- A flush puts every event of the batch through detection, in order, and empties the batch, whether
-- or not the database takes the batch. If it does, the batch stands in the logs and is counted; if
-- it does not, the logs and the count are what they were, and the batch is gone.
pub flush_lem :
    (commits : Bool) (m : ℕ → Moment) (w : Worker)
    → kept (flush commits m w) ≡ flushed commits w.batch w
unfolding flush insert_logs_batch
flush_lem commits m w = elim (Bool-cases (is_empty w.batch)) [
  | inl nothing ↦ rw (nothing, flush) (idle commits w.batch nothing)
  | inr some_there ↦
      rw (some_there, flush)
        (ap (λ (k : Kept). emptied k) (kept-examine_all m w.batch (insert_logs_batch commits w))
          ∙ busy commits)
]
  where
    idle :
        (commits : Bool) (batch : List Event)
        → is_empty batch ≡ true
        → kept (record w { batch = batch }) ≡ flushed commits batch w
    idle true [] h =
        let none_more : w.events_processed + 0 ≡ w.events_processed = omega arith in
        simp (append-nil, none_more)
    idle false [] h = simp append-nil
    idle commits (e ∷ es) h = absurd (cc h)

    busy :
        (commits : Bool)
        → emptied (grown w.batch (kept (insert_logs_batch commits w))) ≡ flushed commits w.batch w
    busy true = unfold insert_logs_batch in refl
    busy false = unfold insert_logs_batch in refl

-- What has come and is examined or waits, in order.
abbrev pub taken : Worker → List Event
taken w = w.examined ++ w.batch

abbrev pub event_of : Input → List Event
event_of (event e) = e ∷ []
event_of tick = []
event_of close = []

taken-flush : (commits : Bool) (m : ℕ → Moment) (w : Worker) → taken (flush commits m w) ≡ taken w
taken-flush commits m w =
    ap (λ (k : Kept). k.3 ++ k.0) (flush_lem commits m w) ∙ append-nil (w.examined ++ w.batch)

taken-step :
    (commits : Bool) (m : ℕ → Moment) (i : Input) (w : Worker)
    → taken (step commits m i w) ≡ taken w ++ event_of i
unfolding step
taken-step commits m (event e) w =
    let w1 = record w { batch = w.batch ++ e ∷ [] } in
    elim (Bool-cases (leb batch_size (length w1.batch))) [
      | inl full ↦
          rw (full, step)
            (taken-flush commits m w1 ∙ sym (append_assoc w.examined w.batch (e ∷ [])))
      | inr room ↦ rw (room, step) (sym (append_assoc w.examined w.batch (e ∷ [])))
    ]
taken-step commits m tick w = taken-flush commits m w ∙ sym (append-nil (taken w))
taken-step commits m close w = taken-flush commits m w ∙ sym (append-nil (taken w))

-- The events of the inputs up to the end of the queue.
abbrev pub events_of : List (Input × Bool) → List Event
events_of [] = []
events_of ((close, _) ∷ _) = []
events_of ((i, _) ∷ rest) = event_of i ++ events_of rest

length-flush :
    (commits : Bool) (m : ℕ → Moment) (w : Worker) → length (flush commits m w).batch < batch_size
length-flush commits m w = rw (ap (λ (k : Kept). length k.0) (flush_lem commits m w)) (omega arith)

-- From a batch of less than 500 events, no step leaves 500 or more.
pub length-step :
    (commits : Bool) (m : ℕ → Moment) (i : Input) (w : Worker)
    → length w.batch < batch_size
    → length (step commits m i w).batch < batch_size
unfolding step
length-step commits m (event e) w h =
    let w1 = record w { batch = w.batch ++ e ∷ [] } in
    elim (Bool-cases (leb batch_size (length w1.batch))) [
      | inl full ↦ rw (full, step) (length-flush commits m w1)
      | inr room ↦ rw (room, step) (ground arith)
    ]
length-step commits m tick w h = length-flush commits m w
length-step commits m close w h = length-flush commits m w

-- Every event that comes from the queue before its end goes through detection once, in the order in
-- which they come, or waits in the batch, whatever the database answers and whenever the ticker
-- fires; and at the end of the queue none waits.
pub work_lem :
    (m : ℕ → Moment) (inputs : List (Input × Bool)) (commits : Bool) (w : Worker)
    → (taken (work m inputs w) ≡ taken w ++ events_of inputs)
      × ((work m (inputs ++ (close, commits) ∷ []) w).examined ≡ taken w ++ events_of inputs)
unfolding work step
work_lem m [] commits w = (
  sym (append-nil (taken w)),
  ap (λ (k : Kept). k.3) (flush_lem commits m w) ∙ sym (append-nil (taken w)),
)
work_lem m ((close, c) ∷ rest) commits w =
    (taken-step c m close w, ap (λ (k : Kept). k.3) (flush_lem c m w) ∙ sym (append-nil (taken w)))
work_lem m ((tick, c) ∷ rest) commits w =
    let (all, ended) = work_lem m rest commits (step c m tick w) in
    let one = ap (λ (xs : List Event). xs ++ events_of rest) (taken-flush c m w) in
    (all ∙ one, ended ∙ one)
work_lem m ((event e, c) ∷ rest) commits w =
    let (all, ended) = work_lem m rest commits (step c m (event e) w) in
    let one =
      ap (λ (xs : List Event). xs ++ events_of rest) (taken-step c m (event e) w)
      ∙ append_assoc (taken w) (e ∷ []) (events_of rest) in
    (all ∙ one, ended ∙ one)
