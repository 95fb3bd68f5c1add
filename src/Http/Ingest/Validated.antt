-- ===== src/Http/Ingest/Validated.antt =====
-- Which events enter the queue (ingestion-service/internal/handler/log_handler.go,
-- internal/kafka/consumer.go).
use multi_tenant_siem.Base.{
  ℕ, ◌+◌, ◌≤◌, ◌<◌, String, ◌≡◌, refl, ◌↔◌, ◌⊎◌, inl, inr, true, false, Option, none, some, List,
  [], ◌∷◌, ◌++◌, arith, ltb, str_eq, Bool-cases, Option-cases, length, length-append,
}
use multi_tenant_siem.Detection.Model.{Event}
use multi_tenant_siem.Http.Ingest.{
  day, validate_log, capacity, enqueue_log, Ingested, answered, waiting, ingest_log, consume,
}

-- What the validator asks for.
abbrev pub IsValid : ℕ → Event → Type 0
IsValid now e =
    (str_eq e.tenant_id "" ≡ false)
    × (str_eq e.source "" ≡ false)
    × (str_eq e.event_type "" ≡ false)
    × (str_eq e.message "" ≡ false)
    × (1 ≤ e.timestamp)
    × (e.timestamp ≤ now + day)

validate_log_sound : (now : ℕ) (e : Event) → validate_log now e ≡ none → IsValid now e
unfolding validate_log
validate_log_sound now e h = ground arith

validate_log_complete : (now : ℕ) (e : Event) → IsValid now e → validate_log now e ≡ none
unfolding validate_log
validate_log_complete now e h = ground arith

-- The validator accepts an event exactly if its tenant, source, type and message are not empty, it
-- has a time, and the time is at most a day ahead.
pub validate_log_iff : (now : ℕ) (e : Event) → (validate_log now e ≡ none) ↔ IsValid now e
validate_log_iff now e = (validate_log_sound now e, validate_log_complete now e)

-- What the queue holds after the handler, if it held valid events within its capacity.
abbrev pub Holds : ℕ → List Event → Ingested → Type 0
Holds now queue (answered status message queue') =
    (queue' ≡ queue) × (status ≡ 400)
    ⊎ ((e : Event) × (queue' ≡ queue ++ e ∷ [])
        × (status ≡ 202)
        × IsValid now e
        × (length queue' ≤ capacity))
Holds now queue (waiting e) = IsValid now e × (capacity ≤ length queue)

-- The handler of /logs answers 400 and leaves the queue as it is, or answers 202 and appends one
-- valid event within the capacity of the queue, or waits with a valid event because the queue is
-- full.
pub ingest_log_lem :
    (now : ℕ) (body : Option Event) (queue : List Event)
    → Holds now queue (ingest_log now body queue)
unfolding ingest_log
ingest_log_lem now none queue = inl (refl, refl)
ingest_log_lem now (some e) queue = elim (Option-cases (validate_log now e)) [
  | inr (message, bad) ↦ rw (bad, ingest_log) (inl (refl, refl))
  | inl good ↦ elim (Bool-cases (ltb (length queue) capacity)) [
    | inl room ↦
        rw (good, room, ingest_log, enqueue_log)
          (inr (
            e,
            refl,
            refl,
            validate_log_sound now e good,
            omega (arith, length-append queue (e ∷ []), fits room),
          ))
    | inr full ↦
        rw (good, full, ingest_log, enqueue_log) (validate_log_sound now e good, ground arith)
  ]
]
  where
    fits : ltb (length queue) capacity ≡ true → length queue < capacity
    fits room = ground arith

-- The consumer of Kafka does not validate: it puts an event into the queue that the handler of
-- /logs refuses.
pub consume_unvalidated :
    (now : ℕ) (e : Event) (queue : List Event) (message : String)
    → validate_log now e ≡ some message
    → length queue < capacity
    → (consume (some e) queue ≡ some (queue ++ e ∷ []))
      × (ingest_log now (some e) queue ≡ answered 400 message queue)
unfolding consume ingest_log enqueue_log
consume_unvalidated now e queue message bad room = (ground arith, rw (bad, ingest_log))
