-- ===== src/Dashboard/Counters.antt =====
-- The requests that end `onmessage` of frontend/src/App.jsx: `fetchTrafficAnalytics`,
-- `fetchStatusCodeAnalytics` and `fetchAttackers`, each from the answer to its end. An error is
-- caught and dropped, and nothing is written then.
use multi_tenant_siem.Base.{Option, none, some, List}
use multi_tenant_siem.Js.{Value, nil, arr, as_array, or_else, get, text_of, member}
use multi_tenant_siem.Dashboard.State.{Dashboard, StatusSlice, no_traffic}
use multi_tenant_siem.Dashboard.Fetch.{Reply, map_or_throw, ok_body}

unfoldable pub fetch_traffic_analytics : Reply → Dashboard → Dashboard
unfolding ok_body
fetch_traffic_analytics r d = elim (ok_body r) [
  | none ↦ d
  | some v ↦ record d { traffic_analytics = or_else v no_traffic }
]

-- `{ name: `${item.status_code}`, value: item.count }`
plain_slice : Value → Option StatusSlice
unfolding text_of
plain_slice item = elim (get "status_code" item) [
  | none ↦ none
  | some code ↦ some (record { name = text_of code; value = member "count" item })
]

-- `(data || []).map(…)`: a value that is no array has no `map`
plain_slices : Value → Option (List StatusSlice)
unfolding map_or_throw plain_slice
plain_slices v = elim (as_array (or_else v (arr nil))) [
  | none ↦ none
  | some vs ↦ map_or_throw plain_slice vs
]

unfoldable pub fetch_status_code_analytics : Reply → Dashboard → Dashboard
unfolding ok_body plain_slices
fetch_status_code_analytics r d = elim (ok_body r) [
  | none ↦ d
  | some v ↦ elim (plain_slices v) [
    | none ↦ d
    | some slices ↦ record d { status_code_analytics = slices }
  ]
]

unfoldable pub fetch_attackers : Reply → Dashboard → Dashboard
unfolding ok_body
fetch_attackers r d = elim (ok_body r) [
  | none ↦ d
  | some v ↦ record d { attackers = or_else v (arr nil) }
]
