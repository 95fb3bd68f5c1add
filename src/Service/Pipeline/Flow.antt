-- ===== src/Service/Pipeline/Flow.antt =====
-- What is accepted is examined, in order (ingestion-service/internal/queue/log_queue.go,
-- handler/log_handler.go, kafka/consumer.go, service/worker.go).

use mathlib.Core.Option.{some-injective, none-ne-some}
use multi_tenant_siem.Base.{
  ℕ, zero, suc, ◌≤◌, ◌<◌, ◌≡◌, refl, sym, ap, ◌∙◌, inl, inr, Bool, true, none, some, List, [], ◌∷◌,
  ◌++◌, append_assoc, append-nil, arith, ltb, Bool-cases, Option-cases, if◌then◌else◌, length,
  length-append,
}
use multi_tenant_siem.Detection.Model.{Event}
use multi_tenant_siem.Http.Ingest.{ingest_log, consume, validate_log, enqueue_log, capacity}
use multi_tenant_siem.Service.Pool
use multi_tenant_siem.Service.Pool.{
  Answer, Shared, Local, Pool, Act, is_enabled, taken_by, step_at, step, run,
}
use multi_tenant_siem.Service.Pool.Accounted.{Accounted, run-Accounted}
use multi_tenant_siem.Service.Pool.{local_at}
use multi_tenant_siem.Service.Pipeline.{
  Pipeline, Happening, posted, message, takes_next, goes_on, ticks, is_free, take_next, happen,
  happen_all,
}

-- An act that takes no event.
step_at-nothing :
    (i : ℕ) (a : Act) (ls : List Local) (s : Shared) → taken_by a ≡ [] → (step_at i a ls s).2 ≡ []
unfolding step_at
step_at-nothing i a [] s h = refl
step_at-nothing zero a (l ∷ ls) s h = elim (Bool-cases (is_enabled a l)) [
  | inl can ↦ rw (can, step_at) h
  | inr cannot ↦ rw (cannot, step_at) refl
]
step_at-nothing (suc i) a (l ∷ ls) s h = step_at-nothing i a ls s h

-- A free worker takes the event.
step_at-taken :
    (i : ℕ) (e : Event) (commits : Bool) (ls : List Local) (s : Shared)
    → is_free i ls ≡ true
    → (step_at i (Pool.take e commits) ls s).2 ≡ e ∷ []
unfolding step_at local_at
step_at-taken i e commits [] s h = cc
step_at-taken zero e commits (l ∷ ls) s h = rw (h, step_at) refl
step_at-taken (suc i) e commits (l ∷ ls) s h = step_at-taken i e commits ls s h

-- What the channel holds after a send that goes through.
enqueue_log-some :
    (e : Event) (queue queue' : List Event)
    → enqueue_log e queue ≡ some queue'
    → (queue' ≡ queue ++ e ∷ []) × (length queue < capacity)
unfolding enqueue_log
enqueue_log-some e queue queue' h = elim (Bool-cases (ltb (length queue) capacity)) [
  | inl room ↦ (
    sym (some-injective _ _ (sym (ap (λ b. if b then some (queue ++ e ∷ []) else none) room) ∙ h)),
    ground arith,
  )
  | inr full ↦
      elim (none-ne-some queue'
        (sym (ap (λ b. if b then some (queue ++ e ∷ []) else none) full) ∙ h)) [ ]
]

module _ (q : Event → Bool) where
  -- The accepted events are those that the workers received and then those in the queue, in this
  -- order; the queue is within its capacity; and of the received events that pass the test as many
  -- are examined as do not wait with a worker.
  abbrev pub IsFlowing : Pipeline → Type 0
  IsFlowing p =
      (p.accepted ≡ p.pool.received ++ p.queue) × (length p.queue ≤ capacity) × Accounted q p.pool

  step-Accounted : (i : ℕ) (a : Act) (p : Pool) → Accounted q p → Accounted q (step i a p)
  step-Accounted i a p h = unfold run in run-Accounted q ((i, a) ∷ []) p h

  enqueue-IsFlowing :
      (e : Event) (p : Pipeline) (queue : List Event)
      → enqueue_log e p.queue ≡ some queue
      → IsFlowing p
      → IsFlowing (record p { queue = queue; accepted = p.accepted ++ e ∷ [] })
  unfolding enqueue_log
  enqueue-IsFlowing e p queue put (flow, room, counted) =
      let (same, more) = enqueue_log-some e p.queue queue put in
      (
        ap (λ x. x ++ e ∷ []) flow
            ∙ append_assoc p.pool.received p.queue (e ∷ [])
            ∙ ap (◌++◌ p.pool.received) (sym same),
        omega (arith, ap length same, length-append p.queue (e ∷ [])),
        counted,
      )

  -- An act of a worker that takes no event.
  act-IsFlowing :
      (i : ℕ) (a : Act) (p : Pipeline)
      → taken_by a ≡ []
      → IsFlowing p
      → IsFlowing (record p { pool = step i a p.pool })
  unfolding step
  act-IsFlowing i a p none_taken (flow, room, counted) = (
    flow
        ∙ ap (λ x. x ++ p.queue)
            (sym (append-nil p.pool.received)
              ∙ ap (◌++◌ p.pool.received)
                  (sym (step_at-nothing i a p.pool.workers p.pool.shared none_taken))),
    room,
    step-Accounted i a p.pool counted,
  )

  take_next-IsFlowing :
      (i : ℕ) (commits : Bool) (pool : Pool) (queue accepted : List Event)
      → IsFlowing (record { pool = pool; queue = queue; accepted = accepted })
      → IsFlowing (take_next i commits (record { pool = pool; queue = queue; accepted = accepted }))
  unfolding take_next step
  take_next-IsFlowing i commits pool [] accepted flowing = flowing
  take_next-IsFlowing i commits pool (e ∷ rest) accepted (flow, room, counted) =
      elim (Bool-cases (is_free i pool.workers)) [
        | inl free ↦
            rw (free, take_next)
              (
                flow
                    ∙ sym (append_assoc pool.received (e ∷ []) rest)
                    ∙ ap (λ x. (pool.received ++ x) ++ rest)
                        (sym (step_at-taken i e commits pool.workers pool.shared free)),
                omega arith,
                step-Accounted i (Pool.take e commits) pool counted,
              )
        | inr busy ↦ rw (busy, take_next) (flow, room, counted)
      ]

  happen-IsFlowing : (h : Happening) (p : Pipeline) → IsFlowing p → IsFlowing (happen h p)
  unfolding happen ingest_log consume
  happen-IsFlowing (posted now none) p (flow, room, counted) = (flow, room, counted)
  happen-IsFlowing (posted now (some e)) p flowing = elim (Option-cases (validate_log now e)) [
    | inr (text, bad) ↦ rw (bad, happen, ingest_log) flowing
    | inl good ↦ elim (Option-cases (enqueue_log e p.queue)) [
      | inl full ↦ rw (good, full, happen, ingest_log) flowing
      | inr (queue, put) ↦
          rw (good, put, happen, ingest_log) (enqueue-IsFlowing e p queue put flowing)
    ]
  ]
  happen-IsFlowing (message none) p (flow, room, counted) =
      (ap (λ x. x ++ []) flow ∙ append-nil (p.pool.received ++ p.queue), room, counted)
  happen-IsFlowing (message (some e)) p flowing = elim (Option-cases (enqueue_log e p.queue)) [
    | inl full ↦ rw (full, happen, consume) flowing
    | inr (queue, put) ↦ rw (put, happen, consume) (enqueue-IsFlowing e p queue put flowing)
  ]
  happen-IsFlowing (takes_next i commits) p flowing =
      take_next-IsFlowing i commits p.pool p.queue p.accepted flowing
  happen-IsFlowing (goes_on i r) p flowing = act-IsFlowing i (Pool.go r) p refl flowing
  happen-IsFlowing (ticks i commits) p flowing = act-IsFlowing i (Pool.tick commits) p refl flowing

  -- In any order of requests, messages of Kafka and acts of the workers, whatever the clock and the
  -- database answer: the accepted events are those that the workers received and then those in the
  -- queue, in the order in which they were accepted, the queue is within its capacity, and as many of
  -- the received events as pass a test, which may be any, are examined or wait with a worker.
  pub happen_all-IsFlowing :
      (hs : List Happening) (p : Pipeline) → IsFlowing p → IsFlowing (happen_all hs p)
  unfolding happen_all
  happen_all-IsFlowing [] p h = h
  happen_all-IsFlowing (h ∷ hs) p flowing =
      happen_all-IsFlowing hs (happen h p) (happen-IsFlowing h p flowing)
