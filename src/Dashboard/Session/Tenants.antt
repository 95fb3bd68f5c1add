-- ===== src/Dashboard/Session/Tenants.antt =====
-- Whose alerts the page shows (frontend/src/App.jsx, `fetchData`, `onmessage` and the tenant
-- buttons).
use multi_tenant_siem.Base.{
  ℕ, zero, suc, String, ◌≡◌, refl, inl, inr, Bool, true, false, Option, none, some, List, [], ◌∷◌,
  ◌++◌, arith, if◌then◌else◌, Bool-cases, Option-cases, All, All-append,
}
use multi_tenant_siem.Js.{Value}
use multi_tenant_siem.Dashboard.State.{Dashboard, Browser}
use multi_tenant_siem.Dashboard.Fetch.{
  Reply, unreachable, response, parsed, garbled, is_ok, array_or_member, Captured, Stage, alerts,
  resume,
}
use multi_tenant_siem.Dashboard.Feed.{current_tenant_id, belongs_to, new_alerts, on_message}
use multi_tenant_siem.Dashboard.Feed.Merge.{merge-belongs_to}
use multi_tenant_siem.Dashboard.Fetch.{ok_body}
use mathlib.Core.Path.{subst}
use multi_tenant_siem.Dashboard.Session.{
  Session, mount, Task, Input, step, answer, start_fetch, task_at, put_task,
}
use multi_tenant_siem.Dashboard.Session.Keeps.{
  SameAlerts, log_alerts-SameAlerts, on_click-SameAlerts, fetch_traffic_analytics-SameAlerts,
  fetch_status_code_analytics-SameAlerts, fetch_attackers-SameAlerts, resume-SameAlerts,
  alerts_after, resume-alerts_after,
}

-- Every alert of the list is the tenant's whose API key it is.
abbrev pub AllOf : String → List Value → Type 0
AllOf key = All (λ x. belongs_to (current_tenant_id key) x ≡ true)

-- An answer to `GET /alerts` under the key, if it has a body, lists alerts of the key's tenant.
abbrev pub IsHonest : String → Reply → Type 0
IsHonest key (response status (parsed v)) = AllOf key (array_or_member "alerts" v)
IsHonest key _ = Unit

abbrev pub IsHonestAt : String → Stage → Reply → Type 0
IsHonestAt key alerts r = IsHonest key r
IsHonestAt key _ r = Unit

abbrev pub IsHonestTo : Option Task → Reply → Type 0
IsHonestTo none r = Unit
IsHonestTo (some t) r = IsHonestAt t.captured.api_key t.stage r

-- An input that changes no tenant, and whose answer, if it is one to `GET /alerts`, is honest.
abbrev pub IsQuiet : Session → Input → Type 0
IsQuiet s (Input.switch tenant) = ⊥
IsQuiet s (Input.answered i r) = IsHonestTo (task_at i s.tasks) r
IsQuiet s _ = Unit

-- The page shows alerts of the active tenant only, and what is under way is under its key.
pub record IsSettled (s : Session) : Type 0 where
  pub shown : AllOf s.page.api_key s.page.alerts
  pub tasks : All (λ t. t.captured.api_key ≡ s.page.api_key) s.tasks
  pub socket : s.socket_key ≡ s.page.api_key

IsSettled-page :
    (s : Session) (d : Dashboard)
    → SameAlerts s.page d
    → IsSettled s
    → IsSettled (record s { page = d })
IsSettled-page s d same h = record {
  shown = rw (same.alerts, same.api_key) h.shown;
  tasks = rw same.api_key h.tasks;
  socket = rw same.api_key h.socket;
}

alerts_after-AllOf :
    (key : String) (r : Reply) (old : List Value)
    → AllOf key old
    → IsHonest key r
    → AllOf key (alerts_after r old)
unfolding ok_body
alerts_after-AllOf key (unreachable m) old h k = h
alerts_after-AllOf key (response status (garbled m)) old h k = h
alerts_after-AllOf key (response status (parsed v)) old h k = elim (Bool-cases (is_ok status)) [
  | inl good ↦ rw (good, alerts_after, ok_body) k
  | inr bad ↦ rw (bad, alerts_after, ok_body) h
]

put_task-All :
    (P : Captured → Type 0) (i : ℕ) (next : Option Stage) (ts : List Task)
    → All (λ t. P t.captured) ts
    → All (λ t. P t.captured) (put_task i next ts)
put_task-All P i next [] h = h
put_task-All P zero none (t ∷ ts) h = h.1
put_task-All P zero (some stage) (t ∷ ts) h = h
put_task-All P (suc i) next (t ∷ ts) h = (h.0, put_task-All P i next ts h.1)

task_at-key :
    (key : String) (i : ℕ) (ts : List Task) (t : Task)
    → All (λ u. u.captured.api_key ≡ key) ts
    → task_at i ts ≡ some t
    → t.captured.api_key ≡ key
task_at-key key i [] t h e = cc
task_at-key key zero (u ∷ ts) t h e = ground arith
task_at-key key (suc i) (u ∷ ts) t h e = task_at-key key i ts t h.1 e

-- What one answer does to a settled page.
resume-AllOf :
    (b : Browser) (c : Captured) (stage : Stage) (r : Reply) (d : Dashboard)
    → AllOf d.api_key d.alerts
    → IsHonestAt d.api_key stage r
    → AllOf d.api_key (resume b c stage r d).0.alerts
      × ((resume b c stage r d).0.api_key ≡ d.api_key)
resume-AllOf b c alerts r d h k =
    let (shown, key) = resume-alerts_after b c r d in
    (rw shown (alerts_after-AllOf d.api_key r d.alerts h k), key)
resume-AllOf b c stage r d h k =
    let same = resume-SameAlerts b c stage r d (cc) in (rw same.alerts h, same.api_key)

answer-IsSettled :
    (b : Browser) (i : ℕ) (r : Reply) (s : Session)
    → IsSettled s
    → IsHonestTo (task_at i s.tasks) r
    → IsSettled (answer b i r s)
unfolding answer
answer-IsSettled b i r s h k = elim (Option-cases (task_at i s.tasks)) [
  | inl nobody ↦ rw (nobody, answer) h
  | inr (t, found) ↦
      let key = task_at-key s.page.api_key i s.tasks t h.tasks found in
      let (shown, same) =
        resume-AllOf b t.captured t.stage r s.page h.shown
          (subst (λ k. IsHonestAt k t.stage r) key (rw found at k)) in
      rw (found, answer)
        (record {
          shown = rw same shown;
          tasks = rw same (put_task-All (λ c. c.api_key ≡ s.page.api_key) i _ s.tasks h.tasks);
          socket = rw same h.socket;
        })
]

All-tasks-append :
    (key : String) (ts : List Task) (t : Task)
    → All (λ u. u.captured.api_key ≡ key) ts
    → t.captured.api_key ≡ key
    → All (λ u. u.captured.api_key ≡ key) (ts ++ t ∷ [])
All-tasks-append key ts t h e = All-append _ ts (t ∷ []) h (e, tt)

start_fetch-IsSettled : (b : Browser) (s : Session) → IsSettled s → IsSettled (start_fetch b s)
unfolding start_fetch
start_fetch-IsSettled b s h = record {
  shown = h.shown;
  tasks = All-tasks-append s.page.api_key s.tasks _ h.tasks refl;
  socket = h.socket;
}

refresh-IsSettled :
    (b : Browser) (busy : Bool) (s : Session)
    → IsSettled s
    → IsSettled (if busy then s else start_fetch b s)
refresh-IsSettled b true s h = h
refresh-IsSettled b false s h = start_fetch-IsSettled b s h

on_message-AllOf :
    (b : Browser) (key : String) (p : Option Value) (d : Dashboard)
    → key ≡ d.api_key
    → AllOf d.api_key d.alerts
    → AllOf d.api_key (on_message b key p d).alerts × ((on_message b key p d).api_key ≡ d.api_key)
unfolding on_message
on_message-AllOf b key none d e h = (h, refl)
on_message-AllOf b key (some packet) d e h =
    let same = log_alerts-SameAlerts b (new_alerts (current_tenant_id key) packet d.alerts) _ in
    (
      rw (same.alerts, e) (merge-belongs_to (current_tenant_id d.api_key) packet d.alerts h),
      same.api_key,
    )

-- From a settled page, every step but a change of tenant leaves a settled page, if the server
-- answers `GET /alerts` with alerts of the key's own tenant: whatever packets the socket brings, of
-- whatever tenants, and in whatever order the answers come.
pub step-IsSettled :
    (b : Browser) (ws : String) (input : Input) (s : Session)
    → IsSettled s
    → IsQuiet s input
    → IsSettled (step b ws input s)
unfolding step
step-IsSettled b ws Input.refresh s h q = refresh-IsSettled b s.page.loading s h
step-IsSettled b ws (Input.switch tenant) s h q = absurd q
step-IsSettled b ws (Input.answered i r) s h q = answer-IsSettled b i r s h q
step-IsSettled b ws (Input.packet p) s h q =
    let (shown, same) = on_message-AllOf b s.socket_key p s.page h.socket h.shown in
    record { shown = rw same shown; tasks = rw same h.tasks; socket = rw same h.socket }
step-IsSettled b ws Input.opened s h q = IsSettled-page s _ (ground arith) h
step-IsSettled b ws Input.failed s h q = IsSettled-page s _ (ground arith) h
step-IsSettled b ws Input.closed s h q = IsSettled-page s _ (ground arith) h
step-IsSettled b ws Input.no_socket s h q = IsSettled-page s _ (ground arith) h
step-IsSettled b ws (Input.traffic_answered r) s h q =
    IsSettled-page s _ (fetch_traffic_analytics-SameAlerts r s.page) h
step-IsSettled b ws (Input.status_codes_answered r) s h q =
    IsSettled-page s _ (fetch_status_code_analytics-SameAlerts r s.page) h
step-IsSettled b ws (Input.attackers_answered r) s h q =
    IsSettled-page s _ (fetch_attackers-SameAlerts r s.page) h
step-IsSettled b ws Input.timers_due s h q = IsSettled-page s _ (ground arith) h
step-IsSettled b ws (Input.click c) s h q = IsSettled-page s _ (on_click-SameAlerts b c s.page) h

-- A run of the session: each step with what the browser supplies then.
unfoldable pub play : String → List (Browser × Input) → Session → Session
unfolding step
play ws [] s = s
play ws ((b, input) ∷ rest) s = play ws rest (step b ws input s)

abbrev pub AreQuiet : String → List (Browser × Input) → Session → Type 0
AreQuiet ws [] s = Unit
AreQuiet ws ((b, input) ∷ rest) s = IsQuiet s input × AreQuiet ws rest (step b ws input s)

mount-IsSettled : (b : Browser) (ws : String) → IsSettled (mount b ws)
unfolding mount
mount-IsSettled b ws = record { shown = tt; tasks = (refl, tt); socket = refl }

play-IsSettled :
    (ws : String) (inputs : List (Browser × Input)) (s : Session)
    → IsSettled s
    → AreQuiet ws inputs s
    → IsSettled (play ws inputs s)
unfolding play
play-IsSettled ws [] s h q = h
play-IsSettled ws ((b, input) ∷ rest) s h (q, qs) =
    play-IsSettled ws rest (step b ws input s) (step-IsSettled b ws input s h q) qs

-- From the mounted page on, as long as no other tenant is chosen and the server answers
-- `GET /alerts` with the key's own alerts, the page shows alerts of the active tenant only.
pub play-AllOf :
    (b : Browser) (ws : String) (inputs : List (Browser × Input))
    → AreQuiet ws inputs (mount b ws)
    → AllOf (play ws inputs (mount b ws)).page.api_key (play ws inputs (mount b ws)).page.alerts
play-AllOf b ws inputs quiet =
    (play-IsSettled ws inputs (mount b ws) (mount-IsSettled b ws) quiet).shown
