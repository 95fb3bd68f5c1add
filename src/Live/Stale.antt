-- ===== src/Live/Stale.antt =====
-- An answer to GET /alerts that is older than a packet of the socket (`fetchData` and `onmessage` of
-- frontend/src/App.jsx).
use multi_tenant_siem.Base.{
  take, ℕ, String, ◌≡◌, refl, ap, true, false, some, List, [], ◌∷◌, ◌==◌, str_eq, any, keep, All,
  Memᴰ, All-keep_of_All,
}
use multi_tenant_siem.Js.{Value, arr, array, strict_eq}
use multi_tenant_siem.Detection.Model.{Alert}
use multi_tenant_siem.Detection.Store.{get}
use multi_tenant_siem.Service.Json.{alert_json, values}
use multi_tenant_siem.Dashboard.State.{Browser}
use multi_tenant_siem.Dashboard.Fetch.{alerts, ok_body, array_or_member, Reply}
use multi_tenant_siem.Dashboard.Feed.{current_tenant_id, same_alert}
use multi_tenant_siem.Dashboard.Session.{Session, Task, Input, step, answer, task_at}
use multi_tenant_siem.Dashboard.Session.Keeps.{alerts_after, resume-alerts_after}
use multi_tenant_siem.Http.Groups.Limits.{All-take}
use multi_tenant_siem.Http.Alerts.{alerts_of, get_alerts, alerts_endpoint}
use multi_tenant_siem.Http.Alerts.Honest.{elements-array, All-newest_first}
use multi_tenant_siem.Live.Page.{step-feed}
use multi_tenant_siem.Live.Shown.{packet_of, merge-shows}

module _ (time_text : ℕ → String) where
  -- No row has the id of the alert.
  abbrev pub IsMissing : Alert → List Alert → Type 0
  IsMissing a = All (λ (x : Alert). (x.id == a.id) ≡ false)

  missing-values :
      (a : Alert) (xs : List Alert)
      → IsMissing a xs
      → any (same_alert (alert_json time_text a)) (values time_text xs) ≡ false
  unfolding same_alert alert_json strict_eq
  missing-values a [] h = refl
  missing-values a (x ∷ xs) (other, h) = rw other (missing-values a xs h)

  IsMissing-alerts_of :
      (a : Alert) (tenant : String) (rows : List Alert)
      → IsMissing a rows
      → IsMissing a (alerts_of tenant rows)
  unfolding alerts_of
  IsMissing-alerts_of a tenant rows h =
      All-newest_first (λ (x : Alert). (x.id == a.id) ≡ false)
        (keep (λ x. str_eq x.tenant_id tenant) rows)
        (All-keep_of_All (λ (x : Alert). (x.id == a.id) ≡ false) (λ x. str_eq x.tenant_id tenant)
          rows h)

  -- The body of the server's answer.
  ok_body-alerts_endpoint :
      (not_json : String) (keys : List (String × String)) (n : ℕ) (rows : List Alert)
      (key tenant : String)
      → get key keys ≡ some tenant
      → str_eq tenant "" ≡ false
      → ok_body (alerts_endpoint time_text not_json keys (some n) rows key)
        ≡ some (arr (array (values time_text (take n (alerts_of tenant rows)))))
  unfolding alerts_endpoint get_alerts ok_body
  ok_body-alerts_endpoint not_json keys n rows key tenant found named =
      rw (found, alerts_endpoint) (rw (named, get_alerts) refl)

  answer-alerts :
      (b : Browser) (i : ℕ) (r : Reply) (s : Session) (t : Task)
      → task_at i s.tasks ≡ some t
      → t.stage ≡ alerts
      → (answer b i r s).page.alerts ≡ alerts_after r s.page.alerts
  unfolding answer
  answer-alerts b i r s t found first =
      rw (found, answer) (rw first (resume-alerts_after b t.captured r s.page).0)

  -- A packet of the socket puts an alert of the tenant on the page; if a request to GET /alerts is
  -- under way whose rows were read before this alert was stored, its answer, however many of the rows
  -- arrive, takes the alert off the page again.
  pub stale_answer :
      (b b' : Browser) (ws not_json : String) (keys : List (String × String))
      (batch rows : List Alert) (a : Alert) (n i : ℕ) (t : Task) (tenant : String) (s : Session)
      → Memᴰ a batch
      → a.tenant_id ≡ current_tenant_id s.socket_key
      → task_at i s.tasks ≡ some t
      → t.stage ≡ alerts
      → get t.captured.api_key keys ≡ some tenant
      → str_eq tenant "" ≡ false
      → IsMissing a rows
      → (any
            (same_alert (alert_json time_text a))
            (step b ws (Input.packet (packet_of time_text batch)) s).page.alerts
          ≡ true)
        × (any
              (same_alert (alert_json time_text a))
              (step b' ws
                (Input.answered i
                  (alerts_endpoint time_text not_json keys (some n) rows t.captured.api_key))
                (step b ws (Input.packet (packet_of time_text batch)) s)).page.alerts
            ≡ false)
  unfolding step
  stale_answer b b' ws not_json keys batch rows a n i t tenant s m mine found first known named
        missing =
      let p = packet_of time_text batch in
      let r = alerts_endpoint time_text not_json keys (some n) rows t.captured.api_key in
      let merged = ap (λ (f : List Value × String). f.0) (step-feed b ws (Input.packet p) s tt) in
      (
        rw merged
            (merge-shows time_text (current_tenant_id s.socket_key) batch s.page.alerts a m mine),
        rw (answer-alerts b' i r (step b ws (Input.packet p) s) t found first) (
            rw
              (
                ok_body-alerts_endpoint not_json keys n rows t.captured.api_key tenant known named,
                alerts_after,
              )
              (unfold array_or_member in
                rw elements-array (
                  missing-values a (take n (alerts_of tenant rows)) (
                    All-take (λ (x : Alert). (x.id == a.id) ≡ false) n (alerts_of tenant rows)
                      (IsMissing-alerts_of a tenant rows missing))))),
      )
