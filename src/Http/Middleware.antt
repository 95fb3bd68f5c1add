-- ===== src/Http/Middleware.antt =====
-- The middleware of ingestion-service/internal/middleware: cors.go, request_id.go, logging.go,
-- rate_limiter.go and auth.go, each a function from a handler to a handler.
use multi_tenant_siem.Base.{
  ℕ, String, Bool, true, false, Option, none, some, List, [], ◌∷◌, ◌++◌, str_eq, if◌then◌else◌,
}
use multi_tenant_siem.Detection.Model.{Event}
use multi_tenant_siem.Detection.Store.{get}
use multi_tenant_siem.Dashboard.Fetch.{Reply, response, garbled}
use multi_tenant_siem.Http.RateLimit.{Client, rate_limit}

-- `tenant` and `request_id` are the values of the context, empty if they are not set; a body that
-- does not decode is `none`.
pub record Request : Type 0 where
  pub method : String
  pub path : String
  pub remote_addr : String
  pub api_key : String
  pub body : Option Event
  pub tenant : String
  pub request_id : String

-- The state that requests share: the queue of the log service, `clients` of the limiter, and a trace
-- of the lines that Logging printed.
pub record World : Type 0 where
  pub queue : List Event
  pub clients : List (String × Client)
  pub lines : List (String × String)

-- What a handler has done when it returns or waits: it answered, it waits for room in the queue, or
-- the request went to the hub or to the handler of Prometheus.
pub data Answer : Type 0 where
  answered : Reply → Answer
  waiting : Event → Answer
  connected scraped : Answer

pub record Result : Type 0 where
  pub headers : List (String × String)
  pub answer : Answer
  pub world : World

-- From a request and the headers that are set so far.
abbrev pub Handler : Type 0
Handler = Request → List (String × String) → World → Result

abbrev pub cors_headers : List (String × String)
cors_headers =
    ("Access-Control-Allow-Origin", "*")
    ∷ ("Access-Control-Allow-Methods", "GET, POST, OPTIONS")
    ∷ ("Access-Control-Allow-Headers", "Content-Type, x-api-key")
    ∷ []

-- `http.Error`, or no body: a text that is no JSON.
abbrev pub error : String → ℕ → List (String × String) → World → Result
error not_json status headers w = record {
  headers = headers;
  answer = answered (response status (garbled not_json));
  world = w;
}

-- `CORS`
unfoldable pub cors : String → Handler → Handler
cors not_json next r headers w =
    let headers' = headers ++ cors_headers in
    if str_eq r.method "OPTIONS" then error not_json 200 headers' w else next r headers' w

-- `RequestID`, with the id that `generateRequestID` makes.
unfoldable pub with_request_id : String → Handler → Handler
with_request_id id next r headers w =
    next (record r { request_id = id }) (headers ++ ("X-Request-ID", id) ∷ []) w

-- Whether the handler returns now.
abbrev pub has_returned : Answer → Bool
has_returned (answered _) = true
has_returned scraped = true
has_returned _ = false

-- `Logging`: the line is printed when the next handler returns.
unfoldable pub logging : Handler → Handler
logging next r headers w =
    let result = next r headers w in
    if has_returned result.answer
    then (record result {
      world = record result.world { lines = result.world.lines ++ (r.method, r.path) ∷ [] };
    })
    else result

-- `RateLimit`, at the time that it reads.
unfoldable pub limited : String → ℕ → Handler → Handler
unfolding rate_limit
limited not_json now next r headers w =
    let (clients, passes) = rate_limit now r.remote_addr w.clients in
    let w' = record w { clients = clients } in
    if passes then next r headers w' else error not_json 429 headers w'

-- `Auth`
unfoldable pub auth : String → List (String × String) → Handler → Handler
unfolding get
auth not_json keys next r headers w = elim (get r.api_key keys) [
  | none ↦ error not_json 401 headers w
  | some tenant ↦ next (record r { tenant = tenant }) headers w
]
