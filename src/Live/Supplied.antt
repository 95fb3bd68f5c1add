-- ===== src/Live/Supplied.antt =====
-- The page of frontend/src/App.jsx with data of the analytics of ingestion-service only.
use multi_tenant_siem.Base.{
  ℕ, String, ◌≡◌, refl, ◌⊎◌, inl, inr, Bool, Option, none, some, List, [], ◌∷◌, arith, Option-cases,
}
use multi_tenant_siem.Detection.Model.{Event, Alert}
use multi_tenant_siem.Dashboard.State.{Browser}
use multi_tenant_siem.Dashboard.Fetch.{
  Reply, unreachable, Stage, alerts, traffic, status_codes, top_paths, attackers, ok_body,
}
use multi_tenant_siem.Dashboard.Session.{Session, Task, Input, step, answer, task_at}
use multi_tenant_siem.Dashboard.Session.Tenants.{play}
use multi_tenant_siem.Http.Groups.{Database}
use multi_tenant_siem.Http.Analytics.{get_traffic_analytics, get_top_paths, get_attackers}
use multi_tenant_siem.Http.Analytics.Endpoints.{
  list_json, traffic_json, top_path_json, attacker_json, traffic_endpoint, top_paths_endpoint,
  attackers_endpoint,
}
use multi_tenant_siem.Live.Data.Keeps.{
  on_click-IsData, IsClick, on_message-SameData, refresh-SameData, switch_tenant-SameData,
  fetch_traffic_analytics-IsData, fetch_attackers-IsData,
}
use multi_tenant_siem.Live.Data.{
  Gives, reply_of-Gives, IsTraffic, IsPaths, IsAttackers, IsData, IsData-same, IsRightAt,
  resume-IsData,
}

-- The answers of the server to the requests for data, with whatever rows and failures, or none.
module _ (db : Database) (time_text : ℕ → String) (not_json : String) where
  abbrev pub IsTrafficAnswer : Reply → Type 0
  IsTrafficAnswer r =
      ((message : String) × (r ≡ unreachable message))
      ⊎ ((total_fails : Bool) × (error_fails : Bool) × (ip_fails : Bool) × (rows : List Event) × (r
            ≡ traffic_endpoint db not_json total_fails error_fails ip_fails rows))

  abbrev pub IsPathsAnswer : Reply → Type 0
  IsPathsAnswer r =
      ((message : String) × (r ≡ unreachable message))
      ⊎ ((delivered : Option ℕ) × (rows : List Event) × (r
            ≡ top_paths_endpoint db not_json delivered rows))

  abbrev pub IsAttackersAnswer : Reply → Type 0
  IsAttackersAnswer r =
      ((message : String) × (r ≡ unreachable message))
      ⊎ ((delivered : Option ℕ) × (rows : List Alert) × (r
            ≡ attackers_endpoint db not_json delivered time_text rows))

  abbrev pub IsAnswerAt : Stage → Reply → Type 0
  IsAnswerAt traffic r = IsTrafficAnswer r
  IsAnswerAt top_paths r = IsPathsAnswer r
  IsAnswerAt attackers r = IsAttackersAnswer r
  IsAnswerAt _ r = Unit

  abbrev pub IsAnswerTo : Option Task → Reply → Type 0
  IsAnswerTo none r = Unit
  IsAnswerTo (some t) r = IsAnswerAt t.stage r

  abbrev pub IsSupplied : Session → Input → Type 0
  IsSupplied s (Input.answered i r) = IsAnswerTo (task_at i s.tasks) r
  IsSupplied s (Input.traffic_answered r) = IsTrafficAnswer r
  IsSupplied s (Input.attackers_answered r) = IsAttackersAnswer r
  IsSupplied s (Input.click c) = IsClick c
  IsSupplied s _ = Unit

  abbrev pub AreSupplied : String → List (Browser × Input) → Session → Type 0
  AreSupplied ws [] s = Unit
  AreSupplied ws ((b, input) ∷ rest) s =
      IsSupplied s input × AreSupplied ws rest (step b ws input s)

  IsTrafficAnswer-Gives : (r : Reply) → IsTrafficAnswer r → Gives IsTraffic r
  unfolding traffic_endpoint ok_body
  IsTrafficAnswer-Gives r (inl (m, e)) = λ v h. cc
  IsTrafficAnswer-Gives r (inr (t, f, i, rows, e)) = rw e (
      reply_of-Gives IsTraffic not_json traffic_json (get_traffic_analytics db t f i rows)
        (λ x. (x, refl)))

  IsPathsAnswer-Gives : (r : Reply) → IsPathsAnswer r → Gives IsPaths r
  unfolding top_paths_endpoint ok_body
  IsPathsAnswer-Gives r (inl (m, e)) = λ v h. cc
  IsPathsAnswer-Gives r (inr (delivered, rows, e)) = rw e (
      reply_of-Gives IsPaths not_json (list_json top_path_json) (get_top_paths db delivered rows)
        (λ x. (x, refl)))

  IsAttackersAnswer-Gives : (r : Reply) → IsAttackersAnswer r → Gives (IsAttackers time_text) r
  unfolding attackers_endpoint ok_body
  IsAttackersAnswer-Gives r (inl (m, e)) = λ v h. cc
  IsAttackersAnswer-Gives r (inr (delivered, rows, e)) = rw e (
      reply_of-Gives (IsAttackers time_text) not_json (list_json (attacker_json time_text))
        (get_attackers db delivered rows) (λ x. (x, refl)))

  IsAnswerAt-IsRightAt :
      (stage : Stage) (r : Reply) → IsAnswerAt stage r → IsRightAt time_text stage r
  IsAnswerAt-IsRightAt alerts r a = tt
  IsAnswerAt-IsRightAt status_codes r a = tt
  IsAnswerAt-IsRightAt traffic r a = IsTrafficAnswer-Gives r a
  IsAnswerAt-IsRightAt top_paths r a = IsPathsAnswer-Gives r a
  IsAnswerAt-IsRightAt attackers r a = IsAttackersAnswer-Gives r a

  answer-IsData :
      (b : Browser) (i : ℕ) (r : Reply) (s : Session)
      → IsAnswerTo (task_at i s.tasks) r
      → IsData time_text s.page
      → IsData time_text (answer b i r s).page
  unfolding answer
  answer-IsData b i r s a h = elim (Option-cases (task_at i s.tasks)) [
    | inl nobody ↦ rw (nobody, answer) h
    | inr (t, found) ↦
        rw (found, answer)
          (resume-IsData time_text b t.captured t.stage r s.page
            (IsAnswerAt-IsRightAt t.stage r (rw found at a)) h)
  ]

  step-IsData :
      (b : Browser) (ws : String) (input : Input) (s : Session)
      → IsSupplied s input
      → IsData time_text s.page
      → IsData time_text (step b ws input s).page
  unfolding step
  step-IsData b ws Input.refresh s a h =
      IsData-same time_text _ _ (refresh-SameData b s.page.loading s) h
  step-IsData b ws (Input.switch tenant) s a h =
      IsData-same time_text _ _ (switch_tenant-SameData b ws tenant s) h
  step-IsData b ws (Input.answered i r) s a h = answer-IsData b i r s a h
  step-IsData b ws (Input.packet p) s a h =
      IsData-same time_text _ _ (on_message-SameData b s.socket_key p s.page) h
  step-IsData b ws (Input.traffic_answered r) s a h =
      fetch_traffic_analytics-IsData time_text r s.page (IsTrafficAnswer-Gives r a) h
  step-IsData b ws (Input.attackers_answered r) s a h =
      fetch_attackers-IsData time_text r s.page (IsAttackersAnswer-Gives r a) h
  step-IsData b ws (Input.click c) s a h = on_click-IsData time_text b c s.page a h
  step-IsData b ws (Input.status_codes_answered r) s a h =
      IsData-same time_text s.page _ (ground arith) h
  step-IsData b ws Input.opened s a h = IsData-same time_text s.page _ (ground arith) h
  step-IsData b ws Input.failed s a h = IsData-same time_text s.page _ (ground arith) h
  step-IsData b ws Input.closed s a h = IsData-same time_text s.page _ (ground arith) h
  step-IsData b ws Input.no_socket s a h = IsData-same time_text s.page _ (ground arith) h
  step-IsData b ws Input.timers_due s a h = IsData-same time_text s.page _ (ground arith) h

  pub play-IsData :
      (ws : String) (inputs : List (Browser × Input)) (s : Session)
      → AreSupplied ws inputs s
      → IsData time_text s.page
      → IsData time_text (play ws inputs s).page
  unfolding play
  play-IsData ws [] s a h = h
  play-IsData ws ((b, input) ∷ rest) s (one, a) h =
      play-IsData ws rest (step b ws input s) a (step-IsData b ws input s one h)
