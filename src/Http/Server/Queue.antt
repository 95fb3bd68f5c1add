-- ===== src/Http/Server/Queue.antt =====
-- What a request does to the queue of logs and to the headers of its response
-- (ingestion-service/cmd/server/main.go with internal/middleware).

use multi_tenant_siem.Base.{
  ℕ, ◌≤◌, String, ◌≡◌, ◌∙◌, ◌⊎◌, List, [], ◌∷◌, ◌++◌, length, append_assoc,
}
use multi_tenant_siem.Detection.Model.{Event}
use multi_tenant_siem.Http.Ingest
use multi_tenant_siem.Http.Ingest.{ingest_log, capacity}
use multi_tenant_siem.Http.Ingest.Validated.{IsValid}
use multi_tenant_siem.Http.Middleware.{Request, World, Result, Handler}
use multi_tenant_siem.Http.Server.{Route, logs, route}

-- The queue is as before, or a request to /logs appended one valid event within the capacity.
abbrev pub Enqueues : ℕ → Route → List Event → List Event → Type 0
Enqueues now at queue queue' =
    (queue' ≡ queue)
    ⊎ ((at ≡ logs)
        × ((e : Event) × (queue' ≡ queue ++ e ∷ []) × IsValid now e × (length queue' ≤ capacity)))

-- The headers before are a beginning of the headers after.
abbrev pub Extends : List (String × String) → List (String × String) → Type 0
Extends headers headers' = (more : List (String × String)) × (headers' ≡ headers ++ more)

abbrev Does : ℕ → Route → List (String × String) → World → Result → Type 0
Does now at headers w result =
    Enqueues now at w.queue result.world.queue × Extends headers result.headers

abbrev IsSound : ℕ → Handler → Type 0
IsSound now next =
    (r : Request) (headers : List (String × String)) (w : World)
    → Does now (route r.path) headers w (next r headers w)

Extends-more :
    (headers more headers' : List (String × String))
    → Extends (headers ++ more) headers'
    → Extends headers headers'
Extends-more headers more headers' (rest, e) = (more ++ rest, e ∙ append_assoc headers more rest)
