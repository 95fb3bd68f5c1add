-- ===== src/Service/Pool/Refines.antt =====
-- A worker that no other worker interrupts (Service/Worker) is one of the runs of the pool
-- (ingestion-service/internal/service/worker.go).
use multi_tenant_siem.Base.{
  ℕ, ◌≡◌, refl, sym, ap, ◌∙◌, inl, inr, Bool, true, false, List, [], ◌∷◌, ◌++◌, map, append_assoc,
  append-nil, leb, if◌then◌else◌, Bool-cases, length, is_empty,
}
use multi_tenant_siem.Detection.Model.{Event}
use multi_tenant_siem.Service.Worker
use multi_tenant_siem.Service.Worker.{
  Moment, Worker, batch_size, raise, examine, examine_all, insert_logs_batch, flush, Input, work,
}
use multi_tenant_siem.Service.Pool
use multi_tenant_siem.Service.Pool.{
  Job, brute_force, web_scan, suppress, store, tell, Answer, Shared, Local, create, run_job,
  jobs_of, insert_logs, begin_flush, Act, take, tick, go, is_enabled, do_jobs, act, Pool, step_at,
  step, run,
}
use multi_tenant_siem.Service.Pool.Alone.{shared_of, go_alone, Leads-examine_all}

-- A pool of one worker.
abbrev pub pool_with : Shared → List Event → List Job → List Event → Pool
pool_with s batch jobs received = record {
  shared = s;
  workers = record { batch = batch; jobs = jobs } ∷ [];
  received = received;
}

abbrev pub pool_of : Worker → List Event → Pool
pool_of w received = pool_with (shared_of w) w.batch [] received

abbrev pub going : List Answer → List (ℕ × Act)
going = map (λ r. (0, go r))

run-append : (xs ys : List (ℕ × Act)) (p : Pool) → run (xs ++ ys) p ≡ run ys (run xs p)
unfolding run
run-append [] ys p = refl
run-append ((i, a) ∷ xs) ys p = run-append xs ys (Pool.step i a p)

pub run-going :
    (rs : List Answer) (s : Shared) (batch : List Event) (jobs : List Job) (received : List Event)
    → run (going rs) (pool_with s batch jobs received)
      ≡ pool_with (go_alone rs jobs s).1 batch (go_alone rs jobs s).0 received
unfolding run Pool.step step_at act do_jobs go_alone
run-going [] s batch jobs received = refl
run-going (r ∷ []) s batch [] received = ap (pool_with s batch []) (append-nil received)
run-going (r ∷ r' ∷ rs) s batch [] received =
    ap (λ x. run (going (r' ∷ rs)) (pool_with s batch [] x)) (append-nil received)
    ∙ run-going (r' ∷ rs) s batch [] received
run-going (r ∷ rs) s batch (job ∷ rest) received =
    ap (λ x. run (going rs) (pool_with (run_job r job s).0 batch ((run_job r job s).1 ++ rest) x))
      (append-nil received)
    ∙ run-going rs (run_job r job s).0 batch ((run_job r job s).1 ++ rest) received

insert_logs-shared_of :
    (commits : Bool) (w : Worker)
    → insert_logs commits w.batch (shared_of w) ≡ shared_of (insert_logs_batch commits w)
unfolding insert_logs insert_logs_batch
insert_logs-shared_of true w = refl
insert_logs-shared_of false w = refl

-- The jobs of a flush, from its beginning.
flush-going :
    (commits : Bool) (m : ℕ → Moment) (w : Worker) (received : List Event)
    → (rs : List Answer) × (let (l, s) =
          begin_flush commits (record { batch = w.batch; jobs = [] }) (shared_of w) in
        run (going rs) (record { shared = s; workers = l ∷ []; received = received })
        ≡ pool_of (flush commits m w) received)
unfolding begin_flush flush
flush-going commits m w received = elim (Bool-cases (is_empty w.batch)) [
  | inl nothing ↦ ([], rw (nothing, begin_flush, flush) (unfold run in refl))
  | inr there ↦
      let (rs, p) = Leads-examine_all m w.batch (insert_logs_batch commits w) in
      (
        rs,
        rw (there, begin_flush, flush)
            (rw (insert_logs-shared_of commits w) (
              run-going rs (shared_of (insert_logs_batch commits w)) [] (jobs_of w.batch) received
              ∙ ap (λ x. pool_with x.1 [] x.0 received) p)),
      )
]

-- The events that the loop takes from the queue.
unfoldable pub handled : List (Input × Bool) → List Event
handled [] = []
handled ((Worker.close, commits) ∷ rest) = []
handled ((Worker.event e, commits) ∷ rest) = e ∷ handled rest
handled ((Worker.tick, commits) ∷ rest) = handled rest

-- Some acts of the pool lead from one pool to another.
abbrev pub Reaches : Pool → Pool → Type 0
Reaches p q = (acts : List (ℕ × Act)) × (run acts p ≡ q)

Reaches-trans : (p q r : Pool) → Reaches p q → Reaches q r → Reaches p r
Reaches-trans p q r (xs, e) (ys, f) = (xs ++ ys, run-append xs ys p ∙ ap (run ys) e ∙ f)

flush-Reaches :
    (commits : Bool) (m : ℕ → Moment) (w : Worker) (received : List Event)
    → Reaches (pool_of w received) (pool_of (flush commits m w) received)
unfolding run Pool.step step_at act
flush-Reaches commits m w received =
    let (rs, p) = flush-going commits m w received in
    (
      (0, tick commits) ∷ going rs,
      ap
            (λ x.
              let (l, s) =
                begin_flush commits (record { batch = w.batch; jobs = [] }) (shared_of w) in
              run (going rs) (record { shared = s; workers = l ∷ []; received = x }))
            (append-nil received)
          ∙ p,
    )

-- A pool of one worker in which the worker's next act leads to this.
abbrev pub after : Local × Shared → List Event → Pool
after x received = record { shared = x.1; workers = x.0 ∷ []; received = received }

-- A flush, if the batch is full.
abbrev flush_if : Bool → Bool → Local → Shared → Local × Shared
flush_if commits full l s = if full then begin_flush commits l s else (l, s)

abbrev idle : List Event → Local
idle batch = record { batch = batch; jobs = [] }

act-take :
    (commits : Bool) (e : Event) (batch : List Event) (s : Shared)
    → act (take e commits) (idle batch) s
      ≡ flush_if commits (leb batch_size (length (batch ++ e ∷ []))) (idle (batch ++ e ∷ [])) s
unfolding act
act-take commits e batch s = refl

event-Reaches :
    (commits : Bool) (m : ℕ → Moment) (e : Event) (w : Worker) (received : List Event)
    → Reaches
        (pool_of w received)
        (pool_of (Worker.step commits m (Worker.event e) w) (received ++ e ∷ []))
unfolding run Pool.step step_at Worker.step
event-Reaches commits m e w received = from (leb batch_size (length (w.batch ++ e ∷ []))) refl
  where
    now : List Event
    now = received ++ e ∷ []

    from :
        (full : Bool)
        → leb batch_size (length (w.batch ++ e ∷ [])) ≡ full
        → Reaches (pool_of w received) (pool_of (Worker.step commits m (Worker.event e) w) now)
    from true full =
        let w1 = record w { batch = w.batch ++ e ∷ [] } in
        let (rs, p) = flush-going commits m w1 now in
        (
          (0, take e commits) ∷ going rs,
          ap (λ x. run (going rs) (after x now))
                (act-take commits e w.batch (shared_of w)
                  ∙ ap (λ c. flush_if commits c (idle w1.batch) (shared_of w)) full)
              ∙ p
              ∙ ap (λ c. pool_of (if c then flush commits m w1 else w1) now) (sym full),
        )
    from false room =
        let w1 = record w { batch = w.batch ++ e ∷ [] } in
        (
          (0, take e commits) ∷ [],
          ap (λ x. after x now)
                (act-take commits e w.batch (shared_of w)
                  ∙ ap (λ c. flush_if commits c (idle w1.batch) (shared_of w)) room)
              ∙ ap (λ c. pool_of (if c then flush commits m w1 else w1) now) (sym room),
        )

-- Whatever a worker handles on its own, the pool of this one worker can do: there are acts, with the
-- same events taken from the queue, that lead to the same rows, maps, alerts and batch. So what is
-- proved of every run of the pool holds of the worker.
pub work_refines :
    (m : ℕ → Moment) (inputs : List (Input × Bool)) (w : Worker) (received : List Event)
    → Reaches (pool_of w received) (pool_of (work m inputs w) (received ++ handled inputs))
unfolding work handled Worker.step
work_refines m [] w received = ([], unfold run in ap (pool_of w) (sym (append-nil received)))
work_refines m ((Worker.close, commits) ∷ rest) w received =
    let (acts, p) = flush-Reaches commits m w received in
    (acts, p ∙ ap (pool_of (flush commits m w)) (sym (append-nil received)))
work_refines m ((Worker.tick, commits) ∷ rest) w received =
    Reaches-trans _ (pool_of (flush commits m w) received) _ (flush-Reaches commits m w received)
      (work_refines m rest (flush commits m w) received)
work_refines m ((Worker.event e, commits) ∷ rest) w received =
    let w' = Worker.step commits m (Worker.event e) w in
    let (acts, p) =
      Reaches-trans _ (pool_of w' (received ++ e ∷ [])) _ (event-Reaches commits m e w received)
        (work_refines m rest w' (received ++ e ∷ [])) in
    (acts, p ∙ ap (pool_of (work m rest w')) (append_assoc received (e ∷ []) (handled rest)))
