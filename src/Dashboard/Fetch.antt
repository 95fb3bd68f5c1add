-- ===== src/Dashboard/Fetch.antt =====
-- `fetchData` of frontend/src/App.jsx. Between two answers of the server other handlers run, so it
-- is a machine: `begin_fetch` runs to the first `await fetch`, and `resume` from an answer to the
-- next one. The second await of a request, on its body, changes nothing before the body is there.
pub mod Runs
pub mod Good
use multi_tenant_siem.Base.{
  ℕ, String, Bool, true, false, ◌&&◌, Option, none, some, List, [], ◌∷◌, leb, length, concat,
  decimal, if◌then◌else◌,
}
use multi_tenant_siem.Js.{
  Value, num, str, arr, array, as_array, truthy, or_else, get, member, text_of,
}
use multi_tenant_siem.Dashboard.State.{Dashboard, Browser, StatusSlice, no_traffic}
use multi_tenant_siem.Dashboard.Console.{trigger_toast, add_console_log}

-- The text of a body, parsed, or the message of the error that `json()` throws.
pub data Body : Type 0 where
  parsed : Value → Body
  garbled : String → Body

-- What `await fetch(…)` gives: the message of a network error, or a response.
pub data Reply : Type 0 where
  unreachable : String → Reply
  response : ℕ → Body → Reply

-- `response.ok`
abbrev pub is_ok : ℕ → Bool
is_ok status = leb 200 status && leb status 299

-- The parsed body of a successful response.
unfoldable pub ok_body : Reply → Option Value
ok_body (unreachable _) = none
ok_body (response status (garbled _)) = none
ok_body (response status (parsed v)) = if is_ok status then some v else none

-- A part of the `try` block ends normally, or throws with the updates made so far.
pub data Outcome : Type 0 where
  proceed : Dashboard → Outcome
  thrown : String → Dashboard → Outcome

-- `Array.isArray(data) ? data : (data && Array.isArray(data.key) ? data.key : [])`
unfoldable pub array_or_member : String → Value → List Value
array_or_member key v = elim (as_array v) [
  | some vs ↦ vs
  | none ↦ if truthy v then elim (as_array (member key v)) [ some vs ↦ vs | none ↦ [] ] else []
]

-- The values that the closure of `fetchData` has from the render in which it was made.
pub record Captured : Type 0 where
  pub api_key : String
  pub selected_attacker_ip : Value

-- Reading a body: `if (res.ok) { const data = await res.json(); … }`, with what follows if not.
with_body : Reply → (Value → Dashboard → Outcome) → (ℕ → Dashboard → Outcome) → Dashboard → Outcome
with_body (unreachable message) use_data other d = thrown message d
with_body (response status body) use_data other d =
    if is_ok status
    then elim body [ garbled message ↦ thrown message d | parsed v ↦ use_data v d ]
    else other status d

-- 1. alerts
load_alerts : Browser → Value → Dashboard → Outcome
unfolding array_or_member add_console_log
load_alerts b v d =
    let valid = array_or_member "alerts" v in
    proceed (
      add_console_log b
        (concat ("Loaded " ∷ decimal (length valid) ∷ " threat alerts from API" ∷ [])) "INFO"
        (record d { alerts = valid }))

alerts_failed : ℕ → Dashboard → Outcome
alerts_failed status d = thrown (concat ("Alerts endpoint returned " ∷ decimal status ∷ [])) d

skip : ℕ → Dashboard → Outcome
skip status d = proceed d

-- 2. traffic
load_traffic : Browser → Value → Dashboard → Outcome
unfolding add_console_log
load_traffic b v d = proceed (
    add_console_log b "Fetched network traffic counters successfully" "INFO"
      (record d { traffic_analytics = or_else v no_traffic }))

-- 3. status codes: one slice; `none` is the TypeError at a `null` item
pub status_slice : Value → Option StatusSlice
unfolding text_of
status_slice item = elim (get "status_code" item) [
  | none ↦ none
  | some code ↦ some (record {
    name = text_of (or_else code (str "unknown"));
    value = or_else (member "count" item) (num 0);
  })
]

-- `rawArray.map(f)`, where `f` may throw
unfoldable pub map_or_throw : (Value → Option StatusSlice) → List Value → Option (List StatusSlice)
map_or_throw f [] = some []
map_or_throw f (v ∷ vs) = elim (f v) [
  | none ↦ none
  | some s ↦ elim (map_or_throw f vs) [ none ↦ none | some ss ↦ some (s ∷ ss) ]
]

load_status_codes : Browser → Value → Dashboard → Outcome
unfolding array_or_member map_or_throw status_slice add_console_log
load_status_codes b v d = elim (map_or_throw status_slice (array_or_member "status_codes" v)) [
  | none ↦ thrown b.type_error d
  | some slices ↦ proceed (
      add_console_log b "Compiled status code distributions" "INFO"
        (record d { status_code_analytics = slices }))
]

-- 4. top paths
load_top_paths : Browser → Value → Dashboard → Outcome
unfolding array_or_member add_console_log
load_top_paths b v d = proceed (
    add_console_log b "Retrieved top resource access endpoint lists" "INFO"
      (record d { top_paths = array_or_member "paths" v }))

-- 5. attackers; the first is selected if the render that made the closure had none selected
select_first : Captured → List Value → Dashboard → Option Dashboard
select_first c [] d = some d
select_first c (first ∷ _) d =
    if truthy c.selected_attacker_ip then some d else elim (get "ip" first) [
      | none ↦ none
      | some ip ↦ some (record d { selected_attacker_ip = ip })
    ]

load_attackers : Browser → Captured → Value → Dashboard → Outcome
unfolding array_or_member select_first add_console_log
load_attackers b c v d =
    let valid = array_or_member "attackers" v in
    let d' = record d { attackers = arr (array valid) } in
    elim (select_first c valid d') [
      | none ↦ thrown b.type_error d'
      | some d'' ↦ proceed (
          add_console_log b
            (concat ("Identified " ∷ decimal (length valid) ∷ " top threat actors" ∷ [])) "INFO"
            d'')
    ]

-- The request that is awaited.
pub data Stage : Type 0 where
  alerts traffic status_codes top_paths attackers : Stage

abbrev pub next_stage : Stage → Option Stage
next_stage alerts = some traffic
next_stage traffic = some status_codes
next_stage status_codes = some top_paths
next_stage top_paths = some attackers
next_stage attackers = none

-- The part of the `try` block that uses the answer to one request.
unfoldable pub run_stage : Browser → Captured → Stage → Reply → Dashboard → Outcome
unfolding with_body load_alerts alerts_failed skip load_traffic load_status_codes load_top_paths
    load_attackers
run_stage b c alerts r d = with_body r (load_alerts b) alerts_failed d
run_stage b c traffic r d = with_body r (load_traffic b) skip d
run_stage b c status_codes r d = with_body r (load_status_codes b) skip d
run_stage b c top_paths r d = with_body r (load_top_paths b) skip d
run_stage b c attackers r d = with_body r (load_attackers b c) skip d

-- The `catch` block.
unfoldable pub fetch_failed : Browser → String → Dashboard → Dashboard
unfolding add_console_log trigger_toast
fetch_failed b message d =
    trigger_toast b "SIEM Ingestion Server API is offline or unreachable" "warning"
      (add_console_log b (concat ("Failed API synchronization: " ∷ message ∷ [])) "ERROR" d)

-- `setLoading(true)` and the first line of the log; the first request is then under way.
unfoldable pub begin_fetch : Browser → Dashboard → Dashboard
unfolding add_console_log
begin_fetch b d =
    add_console_log b "Querying API endpoints for workspace analytics..." "SYSTEM"
      (record d { loading = true })

-- `finally { setLoading(false) }`
abbrev pub finish : Dashboard → Dashboard
finish d = record d { loading = false }

-- From the answer to one request to the next request, or to the end.
unfoldable pub resume : Browser → Captured → Stage → Reply → Dashboard → Dashboard × Option Stage
unfolding run_stage fetch_failed
resume b c stage r d = elim (run_stage b c stage r d) [
  | thrown message d' ↦ (finish (fetch_failed b message d'), none)
  | proceed d' ↦ elim (next_stage stage) [
    | some stage' ↦ (d', some stage')
    | none ↦ (finish d', none)
  ]
]
