-- ===== src/Live/Typed.antt =====
-- What kind of values the page holds (frontend/src/App.jsx), if it talks to ingestion-service.
use multi_tenant_siem.Base.{
  take, ℕ, String, ◌≡◌, refl, ◌⊎◌, inl, inr, Bool, true, false, Option, none, some, List, [], ◌∷◌,
  arith, str_eq, if◌then◌else◌, Bool-cases, Option-cases, All, All-keep_of_All, All-append,
}
use multi_tenant_siem.Js.{Value, arr, array}
use multi_tenant_siem.Detection.Model.{Alert}
use multi_tenant_siem.Detection.Store.{get}
use multi_tenant_siem.Service.Json.{alert_json, values}
use multi_tenant_siem.Dashboard.State.{Dashboard, Browser}
use multi_tenant_siem.Dashboard.Fetch.{
  Reply, Stage, Captured, alerts, ok_body, array_or_member, resume, unreachable,
}
use multi_tenant_siem.Dashboard.Feed.{
  current_tenant_id, new_alerts, merge, on_message, belongs_to, incoming_alerts,
}
use multi_tenant_siem.Dashboard.Feed.Merge.{merge-append}
use multi_tenant_siem.Dashboard.Session.{
  Session, Task, Input, step, answer, start_fetch, switch_tenant, task_at,
}
use multi_tenant_siem.Dashboard.Session.Keeps.{
  log_alerts-SameAlerts, on_click-SameAlerts, fetch_traffic_analytics-SameAlerts,
  fetch_status_code_analytics-SameAlerts, fetch_attackers-SameAlerts, resume-SameAlerts,
  alerts_after, resume-alerts_after,
}
use multi_tenant_siem.Dashboard.Session.Tenants.{play}
use multi_tenant_siem.Http.Alerts.{alerts_of, get_alerts, alerts_endpoint, error_reply}
use multi_tenant_siem.Http.Alerts.Honest.{elements-array}
use multi_tenant_siem.Live.Shown.{packet_of}

-- The JSON of an alert.
abbrev pub IsAlert : (ℕ → String) → Value → Type 0
IsAlert time_text v = (a : Alert) × (v ≡ alert_json time_text a)

module _ (time_text : ℕ → String) (not_json : String) where
  -- An answer of the server to GET /alerts, with whatever keys and rows, of which any number arrives, or none.
  abbrev pub IsServers : String → Reply → Type 0
  IsServers key r =
      ((message : String) × (r ≡ unreachable message))
      ⊎ ((keys : List (String × String)) × (delivered : Option ℕ) × (rows : List Alert) × (r
            ≡ alerts_endpoint time_text not_json keys delivered rows key))

  abbrev pub IsServersAt : String → Stage → Reply → Type 0
  IsServersAt key alerts r = IsServers key r
  IsServersAt key _ r = Unit

  abbrev pub IsServersTo : Option Task → Reply → Type 0
  IsServersTo none r = Unit
  IsServersTo (some t) r = IsServersAt t.captured.api_key t.stage r

  abbrev pub IsHubs : Option Value → Type 0
  IsHubs p = (p ≡ none) ⊎ ((batch : List Alert) × (p ≡ packet_of time_text batch))

  -- An input whose answer to GET /alerts is the server's, and whose packet is the hub's or broken.
  abbrev pub IsOurs : Session → Input → Type 0
  IsOurs s (Input.answered i r) = IsServersTo (task_at i s.tasks) r
  IsOurs s (Input.packet p) = IsHubs p
  IsOurs s _ = Unit

  abbrev pub AreOurs : String → List (Browser × Input) → Session → Type 0
  AreOurs ws [] s = Unit
  AreOurs ws ((b, input) ∷ rest) s = IsOurs s input × AreOurs ws rest (step b ws input s)

  values-IsAlert : (xs : List Alert) → All (IsAlert time_text) (values time_text xs)
  values-IsAlert [] = tt
  values-IsAlert (a ∷ xs) = ((a, refl), values-IsAlert xs)

  alerts_after-IsAlert :
      (key : String) (r : Reply) (old : List Value)
      → IsServers key r
      → All (IsAlert time_text) old
      → All (IsAlert time_text) (alerts_after r old)
  unfolding alerts_endpoint get_alerts ok_body array_or_member
  alerts_after-IsAlert key r old (inl (message, e)) h = rw e h
  alerts_after-IsAlert key r old (inr (keys, delivered, rows, e)) h = rw e (answered (get key keys))
    where
      answered :
          (found : Option String)
          → All (IsAlert time_text) (
              alerts_after
                (elim found [
                  | none ↦ error_reply time_text not_json 401
                  | some tenant ↦ get_alerts time_text not_json delivered rows tenant
                ])
                old)
      answered none = h
      answered (some tenant) = elim (Bool-cases (str_eq tenant "")) [
        | inl empty ↦ rw (empty, get_alerts) h
        | inr there ↦ elim (Option-cases delivered) [
          | inl failed ↦ rw (there, failed, get_alerts) h
          | inr (n, read) ↦
              rw (there, read, get_alerts)
                (rw elements-array (values-IsAlert (take n (alerts_of tenant rows))))
        ]
      ]

  merge-IsAlert :
      (tenant : String) (batch : List Alert) (vs : List Value)
      → All (IsAlert time_text) vs
      → All (IsAlert time_text) (merge tenant (arr (array (values time_text batch))) vs)
  unfolding new_alerts incoming_alerts
  merge-IsAlert tenant batch vs h = rw merge-append (
      All-append (IsAlert time_text) _ vs
        (All-keep_of_All (IsAlert time_text) _ _ (
          All-keep_of_All (IsAlert time_text) (belongs_to tenant)
            (incoming_alerts (arr (array (values time_text batch))))
            (rw elements-array (values-IsAlert batch))))
        h)

  on_message-IsAlert :
      (b : Browser) (key : String) (p : Option Value) (d : Dashboard)
      → IsHubs p
      → All (IsAlert time_text) d.alerts
      → All (IsAlert time_text) (on_message b key p d).alerts
  unfolding on_message packet_of
  on_message-IsAlert b key p d (inl broken) h = rw broken h
  on_message-IsAlert b key p d (inr (batch, e)) h =
      let v = arr (array (values time_text batch)) in
      rw e (
        rw (log_alerts-SameAlerts b (new_alerts (current_tenant_id key) v d.alerts) _).alerts
          (merge-IsAlert (current_tenant_id key) batch d.alerts h))

  resume-IsAlert :
      (b : Browser) (c : Captured) (stage : Stage) (r : Reply) (d : Dashboard)
      → IsServersAt c.api_key stage r
      → All (IsAlert time_text) d.alerts
      → All (IsAlert time_text) (resume b c stage r d).0.alerts
  resume-IsAlert b c alerts r d ours h =
      rw (resume-alerts_after b c r d).0 (alerts_after-IsAlert c.api_key r d.alerts ours h)
  resume-IsAlert b c stage r d ours h = rw (resume-SameAlerts b c stage r d (cc)).alerts h

  answer-IsAlert :
      (b : Browser) (i : ℕ) (r : Reply) (s : Session)
      → IsServersTo (task_at i s.tasks) r
      → All (IsAlert time_text) s.page.alerts
      → All (IsAlert time_text) (answer b i r s).page.alerts
  unfolding answer
  answer-IsAlert b i r s ours h = elim (Option-cases (task_at i s.tasks)) [
    | inl nobody ↦ rw (nobody, answer) h
    | inr (t, found) ↦
        rw (found, answer) (resume-IsAlert b t.captured t.stage r s.page (rw found at ours) h)
  ]

  refresh-alerts :
      (b : Browser) (busy : Bool) (s : Session)
      → (if busy then s else start_fetch b s).page.alerts ≡ s.page.alerts
  unfolding start_fetch
  refresh-alerts b true s = refl
  refresh-alerts b false s = refl

  switch_tenant-alerts :
      (b : Browser) (ws tenant : String) (s : Session)
      → (switch_tenant b ws tenant s).page.alerts ≡ s.page.alerts
  unfolding switch_tenant
  switch_tenant-alerts b ws tenant s = ground arith

  step-IsAlert :
      (b : Browser) (ws : String) (input : Input) (s : Session)
      → IsOurs s input
      → All (IsAlert time_text) s.page.alerts
      → All (IsAlert time_text) (step b ws input s).page.alerts
  unfolding step
  step-IsAlert b ws Input.refresh s ours h = rw (refresh-alerts b s.page.loading s) h
  step-IsAlert b ws (Input.switch tenant) s ours h = rw (switch_tenant-alerts b ws tenant s) h
  step-IsAlert b ws (Input.answered i r) s ours h = answer-IsAlert b i r s ours h
  step-IsAlert b ws (Input.packet p) s ours h = on_message-IsAlert b s.socket_key p s.page ours h
  step-IsAlert b ws (Input.traffic_answered r) s ours h =
      rw (fetch_traffic_analytics-SameAlerts r s.page).alerts h
  step-IsAlert b ws (Input.status_codes_answered r) s ours h =
      rw (fetch_status_code_analytics-SameAlerts r s.page).alerts h
  step-IsAlert b ws (Input.attackers_answered r) s ours h =
      rw (fetch_attackers-SameAlerts r s.page).alerts h
  step-IsAlert b ws (Input.click c) s ours h = rw (on_click-SameAlerts b c s.page).alerts h
  step-IsAlert b ws Input.opened s ours h = h
  step-IsAlert b ws Input.failed s ours h = h
  step-IsAlert b ws Input.closed s ours h = h
  step-IsAlert b ws Input.no_socket s ours h = h
  step-IsAlert b ws Input.timers_due s ours h = h

  pub play-IsAlert :
      (ws : String) (inputs : List (Browser × Input)) (s : Session)
      → AreOurs ws inputs s
      → All (IsAlert time_text) s.page.alerts
      → All (IsAlert time_text) (play ws inputs s).page.alerts
  unfolding play
  play-IsAlert ws [] s ours h = h
  play-IsAlert ws ((b, input) ∷ rest) s (one, ours) h =
      play-IsAlert ws rest (step b ws input s) ours (step-IsAlert b ws input s one h)
