-- ===== src/Agent/Traffic.antt =====
-- What GET /analytics/traffic (`GetTrafficAnalytics` of
-- ingestion-service/internal/repository/analytics_repository.go) counts of the events of
-- log-agent/parser.
pub mod Shown
use mathlib.Core.Option.{none-ne-some}
use multi_tenant_siem.Base.{
  ℕ, zero, suc, ◌+◌, ◌-◌, ◌*◌, ◌≤◌, ◌<◌, String, ◌≡◌, refl, sym, ap, ◌∙◌, ◌≢◌, ◌↔◌, ◌⊎◌, inl, inr,
  Bool, true, false, not, ◌&&◌, ◌||◌, Option, none, some, List, [], ◌∷◌, ◌++◌, map, arith, ltb, leb,
  ◌==◌, str_eq, eq_iff, eq_refl, if◌then◌else◌, Bool-cases, Option-cases, length, any, keep, All,
  keep_none, Memᴰ, includes, All-keep_of_All,
}
use multi_tenant_siem.Detection.Model.{Event}
use multi_tenant_siem.Agent.Auth.{parse_auth_log}
use multi_tenant_siem.Agent.Regex.{match_here}
use multi_tenant_siem.Agent.Nginx.{
  parse_nginx_log, nginx_pattern, event_of_groups, atoi, severity_of, access_event,
}
use multi_tenant_siem.Agent.Send.Twice.{Log, auth, access, parser_of, guarded, mapped}
use multi_tenant_siem.Http.Groups.{Database, distinct}
use multi_tenant_siem.Http.Groups.Limits.{All-weaken}
use multi_tenant_siem.Http.Analytics.{
  TrafficAnalytics, metadata, nginx_rows, warnings, present, unique_ips_of, get_traffic_analytics,
}

-- One of the two parsers made the event of a line.
abbrev pub IsFromAgent : Event → Type 0
IsFromAgent e = (log : Log) × (now : ℕ) × (line : String) × (parser_of log now line ≡ some e)

-- What the queries look for is not in the event.
abbrev IsUnseen : Database → Event → Type 0
IsUnseen db e = (str_eq e.severity "WARNING" ≡ false) × (metadata db "ip" e ≡ none)

severity_of-ne : (status : ℕ) → str_eq (severity_of status) "WARNING" ≡ false
unfolding severity_of
severity_of-ne status = elim (Bool-cases (leb 400 status)) [
  | inl error ↦ rw (error, severity_of) refl
  | inr fine ↦ rw (fine, severity_of) refl
]

event_of_groups-IsUnseen :
    (db : Database) (now : ℕ) (groups : Option (List String)) (e : Event)
    → event_of_groups now groups ≡ some e
    → IsUnseen db e
unfolding event_of_groups metadata
event_of_groups-IsUnseen db now none e p = elim (none-ne-some e p) [ ]
event_of_groups-IsUnseen db now (some (ip ∷ time ∷ method ∷ path ∷ version ∷ status ∷ [])) e p =
    mapped (IsUnseen db) (atoi status) (access_event now ip method path) e
      (λ n. (severity_of-ne n, refl)) p
event_of_groups-IsUnseen db now (some other) e p = elim (none-ne-some e p) [ ]

parser_of-IsUnseen :
    (db : Database) (log : Log) (now : ℕ) (line : String) (e : Event)
    → parser_of log now line ≡ some e
    → IsUnseen db e
unfolding parse_auth_log parse_nginx_log metadata
parser_of-IsUnseen db auth now line e p =
    guarded (IsUnseen db) (includes line "Failed password") _ e (refl, refl) p
parser_of-IsUnseen db access now line e p =
    event_of_groups-IsUnseen db now (match_here nginx_pattern line) e p

present_none :
    (db : Database) (rows : List Event)
    → All (IsUnseen db) rows
    → present (map (metadata db "ip") rows) ≡ []
present_none db [] h = refl
present_none db (row ∷ rows) ((s, n), h) = rw n (present_none db rows h)

-- Of a table that the agent's events fill, the analytics count the requests, but never an error and
-- never an address: no parser writes the level WARNING or the key "ip".
pub traffic_of_agent :
    (db : Database) (rows : List Event)
    → All IsFromAgent rows
    → get_traffic_analytics db false false false rows
      ≡ some
          (record { total_requests = length (nginx_rows rows); error_requests = 0; unique_ips = 0 })
unfolding get_traffic_analytics distinct
traffic_of_agent db rows h =
    let unseen =
      All-weaken IsFromAgent (IsUnseen db)
        (λ e (log, now, line, p). parser_of-IsUnseen db log now line e p) rows h in
    let served = All-keep_of_All (IsUnseen db) _ rows unseen in
    rw
      (
        keep_none _ (nginx_rows rows) (All-weaken _ _ (λ e u. u.0) (nginx_rows rows) served),
        present_none db (nginx_rows rows) served,
      )
      refl
