-- ===== src/Http/Ingest/Consumer.antt =====
-- The loop of ingestion-service/internal/kafka/consumer.go, and `ProcessLog` of
-- internal/service/log_service.go with `InsertLog` of internal/repository/log_repository.go, which
-- nothing calls.
use multi_tenant_siem.Base.{
  ℕ, suc, ◌+◌, ◌*◌, ◌≤◌, ◌<◌, ◌≡◌, refl, sym, ap, ◌∙◌, Bool, true, false, Option, none, some, List,
  [], ◌∷◌, ◌++◌, append_assoc, append-nil, arith, length, length-append,
}
use multi_tenant_siem.Detection.Model.{Event}
use multi_tenant_siem.Http.Ingest.{capacity, enqueue_log, consume}

-- What `ReadMessage` gives: a message, which decodes or not, an error, or an error because the context
-- was cancelled.
pub data Read : Type 0 where
  message : Option Event → Read
  failed cancelled : Read

-- `KafkaMessagesConsumed`, and the milliseconds that the loop has slept.
pub record Consumer : Type 0 where
  pub queue : List Event
  pub consumed : ℕ
  pub slept : ℕ

abbrev pub is_decoded : Option Event → ℕ
is_decoded none = 0
is_decoded (some e) = 1

-- `StartConsumer`, over what is read: `none` if the loop waits for room in the queue.
unfoldable pub start_consumer : List Read → Consumer → Option Consumer
unfolding consume
start_consumer [] c = some c
start_consumer (cancelled ∷ rest) c = some c
start_consumer (failed ∷ rest) c = start_consumer rest (record c { slept = c.slept + 2000 })
start_consumer (message m ∷ rest) c = elim (consume m c.queue) [
  | none ↦ none
  | some queue ↦
      start_consumer rest (record c { queue = queue; consumed = c.consumed + is_decoded m })
]

-- `InsertLog`: the rows after it, and whether there was an error.
unfoldable pub insert_log : Bool → Event → List Event → List Event × Bool
insert_log true event rows = (rows ++ event ∷ [], false)
insert_log false event rows = (rows, true)

-- `ProcessLog`
abbrev pub process_log : Bool → Event → List Event → List Event × Bool
unfolding insert_log
process_log inserted event rows = insert_log inserted event rows

-- The messages that decode, up to the end of the context.
abbrev pub decoded : List Read → List Event
decoded [] = []
decoded (cancelled ∷ rest) = []
decoded (failed ∷ rest) = decoded rest
decoded (message none ∷ rest) = decoded rest
decoded (message (some e) ∷ rest) = e ∷ decoded rest

-- The errors before the end of the context.
abbrev pub failures : List Read → ℕ
failures [] = 0
failures (cancelled ∷ rest) = 0
failures (failed ∷ rest) = suc (failures rest)
failures (message m ∷ rest) = failures rest

consume-some :
    (e : Event) (queue : List Event)
    → length queue < capacity
    → consume (some e) queue ≡ some (queue ++ e ∷ [])
unfolding consume enqueue_log
consume-some e queue room = ground arith

same_consumer :
    {queue queue' : List Event} {n n' t t' : ℕ}
    → queue ≡ queue'
    → n ≡ n'
    → t ≡ t'
    → Path
        (Option Consumer)
        (some (record { queue = queue; consumed = n; slept = t }))
        (some (record { queue = queue'; consumed = n'; slept = t' }))
same_consumer {queue' = queue'} {n = n} {n' = n'} {t = t} e f g =
    ap (λ x. some (record { queue = x; consumed = n; slept = t })) e
    ∙ ap (λ x. some (record { queue = queue'; consumed = x; slept = t })) f
    ∙ ap (λ x. some (record { queue = queue'; consumed = n'; slept = x })) g

-- As long as the queue has room, the loop survives errors and texts that do not decode: until the
-- context ends it puts every message that decodes into the queue, in order, counts these, and sleeps
-- two seconds for each error.
pub start_consumer_lem :
    (reads : List Read) (c : Consumer)
    → length c.queue + length (decoded reads) ≤ capacity
    → start_consumer reads c
      ≡ some (record {
        queue = c.queue ++ decoded reads;
        consumed = c.consumed + length (decoded reads);
        slept = c.slept + 2000 * failures reads;
      })
unfolding start_consumer
start_consumer_lem [] c room = same_consumer (sym (append-nil c.queue)) (omega arith) (omega arith)
start_consumer_lem (cancelled ∷ rest) c room =
    same_consumer (sym (append-nil c.queue)) (omega arith) (omega arith)
start_consumer_lem (failed ∷ rest) c room =
    start_consumer_lem rest (record c { slept = c.slept + 2000 }) room
    ∙ same_consumer refl refl (omega arith)
start_consumer_lem (message none ∷ rest) c room =
    start_consumer_lem rest (record c { consumed = c.consumed + 0 }) room
    ∙ same_consumer refl (omega arith) refl
start_consumer_lem (message (some e) ∷ rest) c room =
    rw (consume-some e c.queue (omega arith), start_consumer)
      (start_consumer_lem rest (record c { queue = c.queue ++ e ∷ []; consumed = c.consumed + 1 })
          (omega (arith, length-append c.queue (e ∷ [])))
        ∙ same_consumer (append_assoc c.queue (e ∷ []) (decoded rest)) (omega arith) refl)
