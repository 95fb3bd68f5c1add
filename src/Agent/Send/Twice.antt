-- ===== src/Agent/Send/Twice.antt =====
-- What arrives of a line (log-agent/main.go with the ingestion service).
use mathlib.Core.Option.{some-injective, none-ne-some}
use mathlib.Core.Path.{subst}
use multi_tenant_siem.Base.{
  ◌*◌, append-nil, ℕ, zero, suc, ◌+◌, ◌≤◌, ◌<◌, String, ◌≡◌, refl, ap, inl, inr, Bool, true, false,
  Option, none, some, List, [], ◌∷◌, ◌++◌, arith, if◌then◌else◌, Option-cases, length, All,
  includes, length-append, append_assoc,
}
use multi_tenant_siem.Detection.Model.{Event}
use multi_tenant_siem.Http.Ingest.{day, validate_log, enqueue_log, ingest_log, consume, capacity}
use multi_tenant_siem.Http.Ingest.Validated.{IsValid, validate_log_iff}
use multi_tenant_siem.Agent.Auth.{parse_auth_log}
use multi_tenant_siem.Agent.Nginx.{
  parse_nginx_log, event_of_groups, nginx_pattern, atoi, access_event,
}
use multi_tenant_siem.Agent.Regex.{match_here}
use multi_tenant_siem.Agent.Send.{
  Network, send_log, produce_log, take_messages, monitor, answered, monitor_lines, Arrival,
}

-- What holds of the value under a guard holds of the result.
pub guarded {ℓ κ} :
    {A : Type ℓ} (P : A → Type κ) (b : Bool) (x e : A)
    → P x
    → (if b then some x else none) ≡ some e
    → P e
guarded P true x e h p = subst P (some-injective _ _ p) h
guarded P false x e h p = elim (none-ne-some e p) [ ]

pub mapped {ℓ κ} :
    {A : Type ℓ} (P : A → Type κ) (o : Option ℕ) (f : ℕ → A) (e : A)
    → ((n : ℕ) → P (f n))
    → Path (Option A) (elim o [ none ↦ none | some n ↦ some (f n) ]) (some e)
    → P e
mapped P none f e h p = elim (none-ne-some e p) [ ]
mapped P (some n) f e h p = subst P (some-injective _ _ p) (h n)

parse_auth_log-IsValid :
    (now server_now : ℕ) (line : String) (e : Event)
    → 1 ≤ now
    → now ≤ server_now + day
    → parse_auth_log now line ≡ some e
    → IsValid server_now e
unfolding parse_auth_log
parse_auth_log-IsValid now server_now line e h ahead p =
    guarded (IsValid server_now) (includes line "Failed password") _ e
      (refl, refl, refl, refl, h, ahead) p

event_of_groups-IsValid :
    (now server_now : ℕ) (groups : Option (List String)) (e : Event)
    → 1 ≤ now
    → now ≤ server_now + day
    → event_of_groups now groups ≡ some e
    → IsValid server_now e
unfolding event_of_groups
event_of_groups-IsValid now server_now none e h ahead p = elim (none-ne-some e p) [ ]
event_of_groups-IsValid now server_now (some (ip ∷ time ∷ method ∷ path ∷ version ∷ status ∷ [])) e
      h ahead p =
    mapped (IsValid server_now) (atoi status) (access_event now ip method path) e
      (λ n. (refl, refl, refl, refl, h, ahead)) p
event_of_groups-IsValid now server_now (some other) e h ahead p = elim (none-ne-some e p) [ ]

-- Both parsers.
pub data Log : Type 0 where
  auth access : Log

abbrev pub parser_of : Log → ℕ → String → Option Event
parser_of auth = parse_auth_log
parser_of access = parse_nginx_log

-- Every event that a parser makes passes the validator of the server, if the time is not zero and at
-- most a day ahead of the server's clock.
pub parser_of-IsValid :
    (log : Log) (now server_now : ℕ) (line : String) (e : Event)
    → 1 ≤ now
    → now ≤ server_now + day
    → parser_of log now line ≡ some e
    → validate_log server_now e ≡ none
unfolding parse_nginx_log
parser_of-IsValid auth now server_now line e h ahead p =
    (validate_log_iff server_now e).1 (parse_auth_log-IsValid now server_now line e h ahead p)
parser_of-IsValid access now server_now line e h ahead p =
    (validate_log_iff server_now e).1
      (event_of_groups-IsValid now server_now (match_here nginx_pattern line) e h ahead p)

-- Both networks work.
abbrev pub all_up : Network
all_up = record { server_reached = true; produced = true }

-- The agent's clock has started and is at most a day ahead of the server's, both networks work, and
-- the consumer takes a message before the next line is read.
abbrev pub IsUp : Arrival → Type 0
IsUp a = (1 ≤ a.time) × (a.time ≤ a.server_time + day) × (a.network ≡ all_up) × (1 ≤ a.taken_after)

ingest_log-answered :
    (now : ℕ) (e : Event) (queue : List Event)
    → validate_log now e ≡ none
    → length queue < capacity
    → ingest_log now (some e) queue ≡ answered 202 "log stored successfully" (queue ++ e ∷ [])
unfolding ingest_log enqueue_log
ingest_log-answered now e queue good room = rw (good, ingest_log) (ground arith)

send_log-enqueued :
    (now : ℕ) (e : Event) (queue : List Event)
    → validate_log now e ≡ none
    → length queue < capacity
    → send_log all_up now e queue ≡ (queue ++ e ∷ [], false)
unfolding send_log
send_log-enqueued now e queue good room =
    rw (ingest_log-answered now e queue good room, send_log) refl

-- Where the topic is empty, the consumer takes nothing.
take_messages-nothing :
    (n : ℕ) (queue : List Event)
    → take_messages n (record { queue = queue; topic = [] }) ≡ record { queue = queue; topic = [] }
unfolding take_messages
take_messages-nothing zero queue = refl
take_messages-nothing (suc n) queue = refl

consume-enqueued :
    (e : Event) (queue : List Event)
    → length queue < capacity
    → consume (some e) queue ≡ some (queue ++ e ∷ [])
unfolding consume enqueue_log
consume-enqueued e queue room = ground arith

take_messages-one :
    (n : ℕ) (e : Event) (queue : List Event)
    → 1 ≤ n
    → length queue < capacity
    → take_messages n (record { queue = queue; topic = e ∷ [] })
      ≡ record { queue = queue ++ e ∷ []; topic = [] }
unfolding take_messages
take_messages-one zero e queue some_taken room = absurd (omega arith)
take_messages-one (suc n) e queue some_taken room =
    rw (consume-enqueued e queue room, take_messages) (take_messages-nothing n (queue ++ e ∷ []))

-- One round puts the event of its line into the queue twice.
monitor-enqueued :
    (log : Log) (a : Arrival) (e : Event) (queue : List Event)
    → IsUp a
    → parser_of log a.time a.line ≡ some e
    → length queue + 1 < capacity
    → monitor (parser_of log) a (record { queue = queue; topic = [] })
      ≡ record { queue = queue ++ e ∷ e ∷ []; topic = [] }
unfolding monitor produce_log
monitor-enqueued log a e queue (h, ahead, up, some_taken) p room =
    rw (p, monitor)
      (rw
        (
          up,
          send_log-enqueued a.server_time e queue
              (parser_of-IsValid log a.time a.server_time a.line e h ahead p) (omega arith),
          take_messages-nothing a.taken_between (queue ++ e ∷ []),
        )
        (rw
          (take_messages-one a.taken_after e (queue ++ e ∷ []) some_taken
            (omega (arith, length-append queue (e ∷ []))))
          (ap (λ (q : List Event). record { queue = q; topic = [] })
            (append_assoc queue (e ∷ []) (e ∷ [])))))

-- The events of the lines, in their order, each twice.
unfoldable pub each_twice : Log → List Arrival → List Event
each_twice log [] = []
each_twice log (a ∷ arrivals) =
    let rest = each_twice log arrivals in
    elim (parser_of log a.time a.line) [ none ↦ rest | some e ↦ e ∷ e ∷ rest ]

-- Where the server can be reached and Kafka works and delivers before the next line, the event of
-- every line is put into the queue twice, in the order of the lines, as long as there is room.
pub monitor_lines-each_twice :
    (log : Log) (arrivals : List Arrival) (queue : List Event)
    → All IsUp arrivals
    → length queue + 2 * length arrivals ≤ capacity
    → monitor_lines (parser_of log) arrivals (record { queue = queue; topic = [] })
      ≡ record { queue = queue ++ each_twice log arrivals; topic = [] }
unfolding monitor_lines each_twice monitor
monitor_lines-each_twice log [] queue up room = rw (append-nil queue) refl
monitor_lines-each_twice log (a ∷ arrivals) queue (is_up, up) room =
    elim (Option-cases (parser_of log a.time a.line)) [
      | inl nothing ↦
          rw (nothing, monitor_lines, monitor)
            (rw (nothing, each_twice)
              (rw (take_messages-nothing a.taken_after queue)
                (monitor_lines-each_twice log arrivals queue up (omega arith))))
      | inr (e, p) ↦
          rw (monitor-enqueued log a e queue is_up p (omega arith), monitor_lines)
            (rw (p, each_twice)
              (rw
                (
                  monitor_lines-each_twice log arrivals (queue ++ e ∷ e ∷ []) up
                      (omega (arith, length-append queue (e ∷ e ∷ []))),
                  append_assoc queue (e ∷ e ∷ []) (each_twice log arrivals),
                )
                refl))
    ]
