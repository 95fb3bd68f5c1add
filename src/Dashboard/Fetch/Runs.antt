-- ===== src/Dashboard/Fetch/Runs.antt =====
-- Whole runs of `fetchData` of frontend/src/App.jsx, from the first answer to the `finally` block.
use multi_tenant_siem.Base.{
  ℕ, ◌+◌, ◌≤◌, ◌≡◌, refl, ◌≢◌, false, Option, none, some, List, [], ◌∷◌, arith, length,
}
use multi_tenant_siem.Dashboard.State.{Dashboard, Browser}
use multi_tenant_siem.Dashboard.Fetch.{
  Reply, unreachable, response, Body, parsed, garbled, is_ok, array_or_member, map_or_throw,
  status_slice, Captured, Stage, traffic, status_codes, top_paths, attackers, next_stage, run_stage,
  fetch_failed, resume, Outcome, proceed, thrown, finish, ok_body,
}
use multi_tenant_siem.Dashboard.Fetch

-- The run from the request that is awaited; `none` if it still waits when the answers are used up.
unfoldable pub run_fetch : Browser → Captured → Stage → List Reply → Dashboard → Option Dashboard
run_fetch b c stage [] d = none
run_fetch b c stage (r ∷ rs) d =
    let (d', next) = resume b c stage r d in
    elim next [ none ↦ some d' | some stage' ↦ run_fetch b c stage' rs d' ]

-- The requests that are left, the awaited one included.
abbrev pub requests_left : Stage → ℕ
requests_left Fetch.alerts = 5
requests_left traffic = 4
requests_left status_codes = 3
requests_left top_paths = 2
requests_left attackers = 1

-- After an answer the run is at the next request, or has ended with `loading` reset.
abbrev AtNext : Stage → Dashboard × Option Stage → Type 0
AtNext stage (d, some stage') = requests_left stage ≡ requests_left stage' + 1
AtNext stage (d, none) = d.loading ≡ false

resume-AtNext :
    (b : Browser) (c : Captured) (stage : Stage) (r : Reply) (d : Dashboard)
    → AtNext stage (resume b c stage r d)
unfolding resume
resume-AtNext b c stage r d = go stage (run_stage b c stage r d)
  where
    go :
        (st : Stage) (o : Outcome)
        → AtNext st (elim o [
          | thrown message d' ↦ (finish (fetch_failed b message d'), none)
          | proceed d' ↦ elim (next_stage st) [
            | some stage' ↦ (d', some stage')
            | none ↦ (finish d', none)
          ]
        ])
    go st (thrown m d') = refl
    go Fetch.alerts (proceed d') = refl
    go traffic (proceed d') = refl
    go status_codes (proceed d') = refl
    go top_paths (proceed d') = refl
    go attackers (proceed d') = refl

requests_left_pos : (stage : Stage) → 1 ≤ requests_left stage
requests_left_pos Fetch.alerts = omega arith
requests_left_pos traffic = omega arith
requests_left_pos status_codes = omega arith
requests_left_pos top_paths = omega arith
requests_left_pos attackers = omega arith

-- A run of `fetchData` ends once its requests are answered, whatever the answers are (errors,
-- bodies that do not parse, values of any shape), and `loading` is reset then.
pub run_fetch_ends :
    (b : Browser) (c : Captured) (stage : Stage) (rs : List Reply) (d : Dashboard)
    → requests_left stage ≤ length rs
    → (d' : Dashboard) × (run_fetch b c stage rs d ≡ some d') × (d'.loading ≡ false)
unfolding run_fetch
run_fetch_ends b c stage [] d h = absurd (omega (arith, requests_left_pos stage))
run_fetch_ends b c stage (r ∷ rs) d h =
    go (resume b c stage r d) (resume-AtNext b c stage r d) (λ st d'. run_fetch_ends b c st rs d')
  where
    go :
        (p : Dashboard × Option Stage)
        → AtNext stage p
        → ((st : Stage) (d' : Dashboard)
            → requests_left st ≤ length rs
            → (d'' : Dashboard) × (run_fetch b c st rs d' ≡ some d'') × (d''.loading ≡ false))
        → (d'' : Dashboard) × ((elim p.1 [ none ↦ some p.0 | some st ↦ run_fetch b c st rs p.0 ])
            ≡ some d'')
          × (d''.loading ≡ false)
    go (d', none) done rest = (d', refl, done)
    go (d', some st) next rest = rest st d' (omega arith)

-- If the alerts cannot be read (no answer, an error status, or a body that does not parse), the run
-- ends there: no data on the page changes, and a warning is raised.
resume-alerts_failed :
    (b : Browser) (c : Captured) (r : Reply) (d : Dashboard)
    → ok_body r ≡ none
    → ((resume b c Fetch.alerts r d).1 ≡ none)
      × ((resume b c Fetch.alerts r d).0.alerts ≡ d.alerts)
      × ((resume b c Fetch.alerts r d).0.attackers ≡ d.attackers)
      × ((resume b c Fetch.alerts r d).0.traffic_analytics ≡ d.traffic_analytics)
      × ((resume b c Fetch.alerts r d).0.status_code_analytics ≡ d.status_code_analytics)
      × ((resume b c Fetch.alerts r d).0.top_paths ≡ d.top_paths)
      × ((resume b c Fetch.alerts r d).0.toast
          ≡ some (record {
            message = "SIEM Ingestion Server API is offline or unreachable";
            type = "warning";
          }))
unfolding resume ok_body
resume-alerts_failed b c (unreachable m) d h = ground arith
resume-alerts_failed b c (response status (garbled m)) d h = ground arith
resume-alerts_failed b c (response status (parsed v)) d h = ground arith

-- An error status at a later request is passed over: the page is as it was, but for `loading` after
-- the last request, and the run goes on.
pub resume_skips :
    (b : Browser) (c : Captured) (stage : Stage) (status : ℕ) (body : Body) (d : Dashboard)
    → stage ≢ Fetch.alerts
    → is_ok status ≡ false
    → ((resume b c stage (response status body) d).1 ≡ next_stage stage)
      × ((resume b c stage (response status body) d).0
          ≡ (elim (next_stage stage) [ none ↦ record d { loading = false } | some _ ↦ d ]))
unfolding resume
resume_skips b c Fetch.alerts status body d late bad = absurd (late refl)
resume_skips b c stage status body d late bad = ground arith
