-- ===== src/Agent/Send.antt =====
-- What log-agent/main.go does with a line: `SendLog` of log-agent/sender/sender.go to /logs, and then
-- `ProduceLog` of log-agent/kafka/producer.go to the topic, from which the consumer of the ingestion
-- service takes it when it gets to it. `decode` of an event that was encoded is the event.
pub mod Twice
pub mod ThreeLines
use multi_tenant_siem.Base.{
  ℕ, zero, suc, ◌+◌, ◌-◌, ◌≤◌, ◌<◌, String, ◌≡◌, refl, sym, ap, ◌∙◌, ◌≢◌, ◌↔◌, ◌⊎◌, inl, inr, Bool,
  true, false, not, ◌&&◌, ◌||◌, Option, none, some, List, [], ◌∷◌, ◌++◌, arith, ltb, leb, ◌==◌,
  str_eq, eq_iff, eq_refl, if◌then◌else◌, Bool-cases, Option-cases, length, any, keep, All, Memᴰ,
}
use multi_tenant_siem.Detection.Model.{Event}
use multi_tenant_siem.Http.Ingest.{Ingested, answered, waiting, ingest_log, consume}

-- How the two networks are: a request reaches the server or not, the producer is initialized and its
-- write succeeds or not.
pub record Network : Type 0 where
  pub server_reached : Bool
  pub produced : Bool

-- `SendLog`: the queue of the server after it, and whether there was an error. A request that times
-- out because the server waits for room is an error of the client; that the server may put its event
-- into the queue later, when a worker takes one, is left out, as is the text of the error.
unfoldable pub send_log : Network → ℕ → Event → List Event → List Event × Bool
unfolding ingest_log
send_log n now event queue =
    if n.server_reached
    then elim (ingest_log now (some event) queue) [
      | waiting e ↦ (queue, true)
      | answered status message queue' ↦ (queue', not (status == 202))
    ]
    else (queue, true)

-- The queue of the server, and the messages of the topic that its consumer has not taken.
pub record Sent : Type 0 where
  pub queue : List Event
  pub topic : List Event

-- `ProduceLog`
unfoldable pub produce_log : Network → Event → List Event → List Event
produce_log n event topic = if n.produced then topic ++ event ∷ [] else topic

-- The consumer takes this many messages, or all if these are fewer; it stops at one that finds no
-- room, for which it waits.
unfoldable pub take_messages : ℕ → Sent → Sent
unfolding consume
take_messages zero s = s
take_messages (suc n) s = elim s.topic [
  | [] ↦ s
  | event ∷ rest ↦ elim (consume (some event) s.queue) [
    | none ↦ s
    | some queue' ↦ take_messages n (record { queue = queue'; topic = rest })
  ]
]

-- A line with the time and the networks when it is read, the server's clock when the request is there,
-- and how many messages the consumer takes between the request and `ProduceLog`, and from then until
-- the next line is read.
pub record Arrival : Type 0 where
  pub network : Network
  pub time : ℕ
  pub server_time : ℕ
  pub taken_between : ℕ
  pub taken_after : ℕ
  pub line : String

-- One round of `monitorAuthLogs` or `monitorNginxLogs`; `parse` is the parser.
unfoldable pub monitor : (ℕ → String → Option Event) → Arrival → Sent → Sent
unfolding send_log produce_log take_messages
monitor parse a s = elim (parse a.time a.line) [
  | none ↦ take_messages a.taken_after s
  | some event ↦
      let s1 =
        take_messages a.taken_between
          (record s { queue = (send_log a.network a.server_time event s.queue).0 }) in
      take_messages a.taken_after (record s1 { topic = produce_log a.network event s1.topic })
]

-- The loops over `t.Lines`.
unfoldable pub monitor_lines : (ℕ → String → Option Event) → List Arrival → Sent → Sent
unfolding monitor
monitor_lines parse [] s = s
monitor_lines parse (a ∷ arrivals) s = monitor_lines parse arrivals (monitor parse a s)
