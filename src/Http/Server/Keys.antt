-- ===== src/Http/Server/Keys.antt =====
-- Where the API key of a request counts (ingestion-service/cmd/server/main.go with
-- internal/middleware).
use multi_tenant_siem.Base.{
  ℕ, String, ◌≡◌, refl, ap, ◌∙◌, ◌≢◌, inl, inr, false, List, str_eq, if◌then◌else◌, Bool-cases,
  Option-cases,
}
use multi_tenant_siem.Detection.Store.{get}
use multi_tenant_siem.Dashboard.Fetch.{Reply, response, parsed, garbled}
use multi_tenant_siem.Http.RateLimit.{rate_limit}
use multi_tenant_siem.Http.Alerts.{alerts_endpoint, get_alerts}
use multi_tenant_siem.Http.Groups.{Database}
use multi_tenant_siem.Http.Middleware.{
  Request, World, answered, Handler, cors, with_request_id, logging, limited, auth, error,
  has_returned,
}
use multi_tenant_siem.Http.Server.{
  Route, logs, alerts, traffic, status_codes, top_paths, ws, attackers, healthz, metrics, not_found,
  route, Reading, reading, handler, mux, final_handler,
}

-- Off /alerts, the handler does the same whatever the key is.
abbrev IgnoresKey : Handler → Type 0
IgnoresKey next =
    (r : Request) (key : String) (headers : List (String × String)) (w : World)
    → route r.path ≢ alerts
    → next (record r { api_key = key }) headers w ≡ next r headers w

cors-IgnoresKey :
    (not_json : String) (next : Handler) → IgnoresKey next → IgnoresKey (cors not_json next)
unfolding cors
cors-IgnoresKey not_json next h r key headers w off =
    ap (if◌then◌else◌ (str_eq r.method "OPTIONS") _) (h r key _ w off)

with_request_id-IgnoresKey :
    (id : String) (next : Handler) → IgnoresKey next → IgnoresKey (with_request_id id next)
unfolding with_request_id
with_request_id-IgnoresKey id next h r key headers w off =
    h (record r { request_id = id }) key _ w off

logging-IgnoresKey : (next : Handler) → IgnoresKey next → IgnoresKey (logging next)
unfolding logging
logging-IgnoresKey next h r key headers w off = rw (h r key headers w off) refl

limited-IgnoresKey :
    (not_json : String) (now : ℕ) (next : Handler)
    → IgnoresKey next
    → IgnoresKey (limited not_json now next)
unfolding limited
limited-IgnoresKey not_json now next h r key headers w off =
    ap
      (λ x.
        if (rate_limit now r.remote_addr w.clients).1
        then x
        else error not_json 429 headers
            (record w { clients = (rate_limit now r.remote_addr w.clients).0 }))
      (h r key headers _ off)

logging-answer :
    (next : Handler) (r : Request) (headers : List (String × String)) (w : World)
    → (logging next r headers w).answer ≡ (next r headers w).answer
unfolding logging
logging-answer next r headers w = elim (Bool-cases (has_returned (next r headers w).answer)) [
  | inl now ↦ rw (now, logging) refl
  | inr later ↦ rw (later, logging) refl
]

limited-answer :
    (not_json : String) (now : ℕ) (next : Handler) (a : Reply) (r : Request)
    (headers : List (String × String)) (w : World)
    → ((w' : World) → (next r headers w').answer ≡ answered a)
    → (limited not_json now next r headers w).answer
      ≡ answered (
          if (rate_limit now r.remote_addr w.clients).1 then a else response 429 (garbled not_json))
unfolding limited
limited-answer not_json now next a r headers w h =
    elim (Bool-cases (rate_limit now r.remote_addr w.clients).1) [
      | inl passes ↦ rw (passes, limited) (h _)
      | inr refused ↦ rw (refused, limited) refl
    ]

reading-answer :
    (reply : Request → Reply) (r : Request) (headers : List (String × String)) (w : World)
    → (reading reply r headers w).answer ≡ answered (reply r)
unfolding reading
reading-answer reply r headers w = from (reply r) refl
  where
    from : (a : Reply) → reply r ≡ a → (reading reply r headers w).answer ≡ answered (reply r)
    from (response status (parsed v)) e = rw (e, reading) refl
    from (response status (garbled m)) e = rw (e, reading) refl
    from (Reply.unreachable m) e = rw (e, reading) refl

module _ (db : Database) (time_text : ℕ → String) (not_json : String)
    (keys : List (String × String)) (rd : Reading) where
  handler-ignores_key :
      (at : Route) (r : Request) (key : String) (headers : List (String × String)) (w : World)
      → at ≢ alerts
      → handler db time_text not_json keys rd at (record r { api_key = key }) headers w
        ≡ handler db time_text not_json keys rd at r headers w
  unfolding handler reading
  handler-ignores_key alerts r key headers w off = absurd (off refl)
  handler-ignores_key logs r key headers w off = refl
  handler-ignores_key traffic r key headers w off = refl
  handler-ignores_key status_codes r key headers w off = refl
  handler-ignores_key top_paths r key headers w off = refl
  handler-ignores_key ws r key headers w off = refl
  handler-ignores_key attackers r key headers w off = refl
  handler-ignores_key healthz r key headers w off = refl
  handler-ignores_key metrics r key headers w off = refl
  handler-ignores_key not_found r key headers w off = refl

  -- The key of a request counts at /alerts only: every other route, the ingestion of logs and the
  -- analytics included, answers and changes the state alike with any key or none.
  pub final_handler_ignores_key :
      (r : Request) (key : String) (headers : List (String × String)) (w : World)
      → route r.path ≢ alerts
      → final_handler db time_text not_json keys rd (record r { api_key = key }) headers w
        ≡ final_handler db time_text not_json keys rd r headers w
  unfolding final_handler mux
  final_handler_ignores_key r key headers w off =
      cors-IgnoresKey not_json _
        (with_request_id-IgnoresKey rd.new_id _ (
          logging-IgnoresKey _ (
            limited-IgnoresKey not_json rd.now (mux db time_text not_json keys rd)
              λ q. handler-ignores_key (route q.path) q)))
        r key headers w off

  -- The endpoint behind its key, in the mux.
  mux-answer :
      (r : Request) (headers : List (String × String)) (w : World)
      → route r.path ≡ alerts
      → (mux db time_text not_json keys rd r headers w).answer
        ≡ answered
            (alerts_endpoint time_text not_json keys rd.alerts_delivered rd.alerts_table r.api_key)
  unfolding mux handler auth alerts_endpoint
  mux-answer r headers w at = rw at (elim (Option-cases (get r.api_key keys)) [
    | inl unknown ↦ rw (unknown, auth, alerts_endpoint) refl
    | inr (tenant, known) ↦
        rw (known, auth, alerts_endpoint)
          (reading-answer
            (λ q. get_alerts time_text not_json rd.alerts_delivered rd.alerts_table q.tenant)
            (record r { tenant = tenant }) headers w)
  ])

  -- GET /alerts answers as the endpoint behind its key does, if the limiter lets the request pass,
  -- and 429 if not; a preflight aside.
  pub final_handler_alerts :
      (r : Request) (headers : List (String × String)) (w : World)
      → route r.path ≡ alerts
      → str_eq r.method "OPTIONS" ≡ false
      → (final_handler db time_text not_json keys rd r headers w).answer
        ≡ answered (
            if (rate_limit rd.now r.remote_addr w.clients).1
            then alerts_endpoint time_text not_json keys rd.alerts_delivered rd.alerts_table
                r.api_key
            else response 429 (garbled not_json))
  unfolding final_handler cors with_request_id
  final_handler_alerts r headers w at other =
      rw (other, cors)
        (logging-answer (limited not_json rd.now (mux db time_text not_json keys rd))
            (record r { request_id = rd.new_id }) _ w
          ∙ limited-answer not_json rd.now (mux db time_text not_json keys rd) _
              (record r { request_id = rd.new_id }) _ w
              (λ w'. mux-answer (record r { request_id = rd.new_id }) _ w' at))
