-- ===== src/Service/Pipeline.antt =====
-- From the handler of /logs and the consumer of Kafka through the queue to the workers:
-- ingestion-service/internal/queue/log_queue.go, handler/log_handler.go, kafka/consumer.go and
-- service/worker.go together, in any order of what happens.
pub mod Flow
use multi_tenant_siem.Base.{
  ℕ, Bool, true, false, Option, none, some, List, [], ◌∷◌, ◌++◌, ◌==◌, if◌then◌else◌, is_empty,
}
use multi_tenant_siem.Detection.Model.{Event}
use multi_tenant_siem.Http.Ingest
use multi_tenant_siem.Http.Ingest.{ingest_log, consume}
use multi_tenant_siem.Service.Pool
use multi_tenant_siem.Service.Pool.{Answer, Local, Pool, step}
use multi_tenant_siem.Service.Pool.{local_at}

-- `accepted`: a trace of the events that were answered 202 or taken over from Kafka.
pub record Pipeline : Type 0 where
  pub pool : Pool
  pub queue : List Event
  pub accepted : List Event

-- A request to /logs (a handler that waits for room tries again later), a message of Kafka, and the
-- acts of worker `i`: it takes the next event, does its next job, or takes a tick.
pub data Happening : Type 0 where
  posted : ℕ → Option Event → Happening
  message : Option Event → Happening
  takes_next : ℕ → Bool → Happening
  goes_on : ℕ → Answer → Happening
  ticks : ℕ → Bool → Happening

abbrev pub event_of : Option Event → List Event
event_of none = []
event_of (some e) = e ∷ []

-- Whether worker `i` is at its `select`.
abbrev pub is_free : ℕ → List Local → Bool
is_free i workers = elim (local_at i workers) [ none ↦ false | some l ↦ is_empty l.jobs ]

-- `case logData := <-queue.LogQueue`
unfoldable pub take_next : ℕ → Bool → Pipeline → Pipeline
unfolding step local_at
take_next i commits p = elim p.queue [
  | [] ↦ p
  | e ∷ rest ↦
      if is_free i p.pool.workers
      then record p { pool = step i (Pool.take e commits) p.pool; queue = rest }
      else p
]

unfoldable pub happen : Happening → Pipeline → Pipeline
unfolding ingest_log consume take_next step
happen (posted now body) p = elim (ingest_log now body p.queue) [
  | Ingest.waiting e ↦ p
  | Ingest.answered status text queue ↦ record p {
    queue = queue;
    accepted = if status == 202 then p.accepted ++ event_of body else p.accepted;
  }
]
happen (message m) p = elim (consume m p.queue) [
  | none ↦ p
  | some queue ↦ record p { queue = queue; accepted = p.accepted ++ event_of m }
]
happen (takes_next i commits) p = take_next i commits p
happen (goes_on i r) p = record p { pool = step i (Pool.go r) p.pool }
happen (ticks i commits) p = record p { pool = step i (Pool.tick commits) p.pool }

unfoldable pub happen_all : List Happening → Pipeline → Pipeline
unfolding happen
happen_all [] p = p
happen_all (h ∷ hs) p = happen_all hs (happen h p)
