-- ===== src/Http/Ingest.antt =====
-- POST /logs and the consumer of Kafka: ingestion-service/internal/handler/log_handler.go,
-- internal/validator/log_validator.go, internal/queue/log_queue.go and internal/kafka/consumer.go.
-- `none` stands for a text that does not decode. A time is a number of nanoseconds, 0 the zero time.
pub mod Validated
pub mod Consumer
use multi_tenant_siem.Base.{
  ◌*◌, ℕ, zero, suc, ◌+◌, ◌-◌, ◌≤◌, ◌<◌, String, ◌≡◌, refl, sym, ap, ◌∙◌, ◌≢◌, ◌↔◌, ◌⊎◌, inl, inr,
  Bool, true, false, not, ◌&&◌, ◌||◌, Option, none, some, List, [], ◌∷◌, ◌++◌, arith, ltb, leb,
  ◌==◌, str_eq, eq_iff, eq_refl, if◌then◌else◌, Bool-cases, Option-cases, length, any, keep, All,
  Memᴰ,
}
use multi_tenant_siem.Detection.Model.{Event, minute}

-- 24 * time.Hour
abbrev pub day : ℕ
day = 24 * (60 * minute)

-- `ValidateLog`: `none` is nil.
unfoldable pub validate_log : ℕ → Event → Option String
validate_log now event =
    if str_eq event.tenant_id ""
    then some "tenant_id is required"
    else if str_eq event.source ""
    then some "source is required"
    else if str_eq event.event_type ""
    then some "event_type is required"
    else if str_eq event.message ""
    then some "message is required"
    else if event.timestamp == 0
    then some "timestamp is required or invalid"
    else if ltb (now + day) event.timestamp
    then some "timestamp cannot be in the far future"
    else none

-- The capacity of `LogQueue`
abbrev pub capacity : ℕ
capacity = 1000

-- `queue.LogQueue <- event`: `none` while the queue is full and the sender waits.
unfoldable pub enqueue_log : Event → List Event → Option (List Event)
enqueue_log event queue = if ltb (length queue) capacity then some (queue ++ event ∷ []) else none

-- What a sender leaves: a status with the queue, or it waits.
pub data Ingested : Type 0 where
  answered : ℕ → String → List Event → Ingested
  waiting : Event → Ingested

-- `IngestLog`
unfoldable pub ingest_log : ℕ → Option Event → List Event → Ingested
unfolding validate_log enqueue_log
ingest_log now none queue = answered 400 "invalid JSON" queue
ingest_log now (some event) queue = elim (validate_log now event) [
  | some message ↦ answered 400 message queue
  | none ↦ elim (enqueue_log event queue) [
    | none ↦ waiting event
    | some queue' ↦ answered 202 "log stored successfully" queue'
  ]
]

-- One message of `StartConsumer`: `none` if the consumer waits.
unfoldable pub consume : Option Event → List Event → Option (List Event)
unfolding enqueue_log
consume none queue = some queue
consume (some event) queue = enqueue_log event queue
