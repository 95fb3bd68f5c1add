-- ===== src/Http/Alerts.antt =====
-- GET /alerts: ingestion-service/internal/auth/apikey.go, internal/middleware/auth.go,
-- internal/handler/alert_handler.go and `GetAlerts` of internal/repository/alert_repository.go. The
-- rows of the table and how many of them arrive are arguments.
pub mod Honest
pub mod Served
use multi_tenant_siem.Base.{
  ℕ, zero, suc, ◌+◌, ◌-◌, ◌≤◌, ◌<◌, String, ◌≡◌, refl, sym, ap, ◌∙◌, ◌≢◌, ◌↔◌, ◌⊎◌, inl, inr, Bool,
  true, false, not, ◌&&◌, ◌||◌, Option, none, some, List, [], ◌∷◌, ◌++◌, arith, ltb, leb, ◌==◌,
  str_eq, eq_iff, eq_refl, if◌then◌else◌, Bool-cases, Option-cases, length, any, keep, All, Memᴰ,
  take,
}
use multi_tenant_siem.Js.{Value, arr, array}
use multi_tenant_siem.Dashboard.Fetch.{Reply, response, Body, parsed, garbled}
use multi_tenant_siem.Detection.Model.{Alert}
use multi_tenant_siem.Detection.Store.{get, put}
use multi_tenant_siem.Service.Json.{alert_json, values}

-- `APIKeys`
abbrev pub api_keys : List (String × String)
api_keys = ("tenant1-secret-key", "tenant_1") ∷ ("tenant2-secret-key", "tenant_2") ∷ []

-- The `init` of the middleware: the text is MASTER_API_KEY, empty if it is not set.
unfoldable pub with_master_key : String → List (String × String) → List (String × String)
unfolding put
with_master_key master keys = if str_eq master "" then keys else put master "admin_tenant" keys

-- `ORDER BY created_at DESC`: of rows with one time the one that was stored first comes first.
unfoldable pub insert_row : Alert → List Alert → List Alert
insert_row a [] = a ∷ []
insert_row a (b ∷ rest) =
    if leb b.created_at a.created_at then a ∷ b ∷ rest else b ∷ insert_row a rest

unfoldable pub newest_first : List Alert → List Alert
unfolding insert_row
newest_first [] = []
newest_first (a ∷ rest) = insert_row a (newest_first rest)

-- The repository's `GetAlerts`
unfoldable pub alerts_of : String → List Alert → List Alert
unfolding newest_first
alerts_of tenant rows = newest_first (keep (λ a. str_eq a.tenant_id tenant) rows)

module _ (time_text : ℕ → String) (not_json : String) where
  -- `http.Error`: a text that is no JSON.
  abbrev pub error_reply : ℕ → Reply
  error_reply status = response status (garbled not_json)

  -- The handler, for the tenant of the request's context. `none` is a query that fails; a connection
  -- that breaks later ends the loop over `rows.Next()`, and the rows that arrived are the answer.
  unfoldable pub get_alerts : Option ℕ → List Alert → String → Reply
  unfolding alerts_of alert_json
  get_alerts delivered rows tenant = if str_eq tenant "" then error_reply 400 else elim delivered [
    | none ↦ error_reply 500
    | some n ↦
        response 200 (parsed (arr (array (values time_text (take n (alerts_of tenant rows))))))
  ]

  -- `Auth` in front of the handler.
  unfoldable pub alerts_endpoint : List (String × String) → Option ℕ → List Alert → String → Reply
  unfolding get get_alerts
  alerts_endpoint keys delivered rows api_key = elim (get api_key keys) [
    | none ↦ error_reply 401
    | some tenant ↦ get_alerts delivered rows tenant
  ]
