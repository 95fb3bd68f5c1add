-- ===== src/Http/Alerts/Served.antt =====
-- The page of frontend/src/App.jsx with the GET /alerts of ingestion-service.
use multi_tenant_siem.Base.{ℕ, String, ◌≡◌, false, Option, none, some, List, [], ◌∷◌, arith, str_eq}
use multi_tenant_siem.Detection.Model.{Alert}
use multi_tenant_siem.Dashboard.State.{Browser}
use multi_tenant_siem.Dashboard.Fetch
use multi_tenant_siem.Dashboard.Fetch.{Reply, Stage, traffic, status_codes, top_paths, attackers}
use multi_tenant_siem.Dashboard.Session.{Session, Task, Input, mount, step, task_at}
use multi_tenant_siem.Dashboard.Session.Tenants.{
  AllOf, IsHonestAt, IsHonestTo, IsQuiet, AreQuiet, play, play-AllOf,
}
use multi_tenant_siem.Http.Alerts.{api_keys, with_master_key, alerts_endpoint}
use multi_tenant_siem.Http.Alerts.Honest.{alerts_endpoint-IsHonest}

module _ (time_text : ℕ → String) (not_json master : String) where
  -- The answer to GET /alerts is the server's, at whatever rows, of which any number arrives; the
  -- other answers may be any.
  abbrev pub IsServedAt : String → Stage → Reply → Type 0
  IsServedAt key Fetch.alerts r =
      (str_eq master key ≡ false)
      × ((delivered : Option ℕ) × (rows : List Alert) × (r
            ≡ alerts_endpoint time_text not_json (with_master_key master api_keys) delivered rows
                key))
  IsServedAt key _ r = Unit

  abbrev pub IsServedTo : Option Task → Reply → Type 0
  IsServedTo none r = Unit
  IsServedTo (some t) r = IsServedAt t.captured.api_key t.stage r

  -- An input that changes no tenant, and whose answer is the server's.
  abbrev pub IsServed : Session → Input → Type 0
  IsServed s (Input.switch tenant) = ⊥
  IsServed s (Input.answered i r) = IsServedTo (task_at i s.tasks) r
  IsServed s _ = Unit

  abbrev pub AreServed : String → List (Browser × Input) → Session → Type 0
  AreServed ws [] s = Unit
  AreServed ws ((b, input) ∷ rest) s = IsServed s input × AreServed ws rest (step b ws input s)

  honest_at :
      (key : String) (stage : Stage) (r : Reply) → IsServedAt key stage r → IsHonestAt key stage r
  honest_at key Fetch.alerts r (other, (delivered, rows, e)) =
      rw e (alerts_endpoint-IsHonest time_text not_json master delivered rows key other)
  honest_at key traffic r h = tt
  honest_at key status_codes r h = tt
  honest_at key top_paths r h = tt
  honest_at key attackers r h = tt

  honest_to : (o : Option Task) (r : Reply) → IsServedTo o r → IsHonestTo o r
  honest_to none r h = tt
  honest_to (some t) r h = honest_at t.captured.api_key t.stage r h

  IsQuiet-of_served : (s : Session) (input : Input) → IsServed s input → IsQuiet s input
  IsQuiet-of_served s (Input.switch tenant) h = h
  IsQuiet-of_served s (Input.answered i r) h = honest_to (task_at i s.tasks) r h
  IsQuiet-of_served s input h = ground arith

  all_quiet :
      (ws : String) (inputs : List (Browser × Input)) (s : Session)
      → AreServed ws inputs s
      → AreQuiet ws inputs s
  all_quiet ws [] s h = tt
  all_quiet ws ((b, input) ∷ rest) s (h, hs) =
      (IsQuiet-of_served s input h, all_quiet ws rest (step b ws input s) hs)

  -- Page and server together: from the mounted page on, as long as no other tenant is chosen, no
  -- request is made under the master key and `GET /alerts` is answered by the server, the page shows
  -- alerts of the active tenant only, whatever rows the database has and whatever packets, failures
  -- and other answers come in whatever order.
  pub play_served :
      (b : Browser) (ws : String) (inputs : List (Browser × Input))
      → AreServed ws inputs (mount b ws)
      → AllOf (play ws inputs (mount b ws)).page.api_key (play ws inputs (mount b ws)).page.alerts
  play_served b ws inputs served = play-AllOf b ws inputs (all_quiet ws inputs (mount b ws) served)
