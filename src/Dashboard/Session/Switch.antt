-- ===== src/Dashboard/Session/Switch.antt =====
-- What a change of tenant leaves on the page (the tenant buttons and `fetchData` of
-- frontend/src/App.jsx).
use multi_tenant_siem.Base.{
  String, ◌≡◌, ap, ◌∙◌, false, none, some, List, [], ◌∷◌, ◌++◌, arith, str_eq, concat,
}
use multi_tenant_siem.Js.{Value}
use multi_tenant_siem.Dashboard.State.{Browser}
use multi_tenant_siem.Dashboard.Fetch.{Reply, array_or_member, Captured, alerts, resume}
use multi_tenant_siem.Dashboard.Fetch.{ok_body}
use multi_tenant_siem.Dashboard.Session.{Session, Task, answer, switch_tenant}
use multi_tenant_siem.Dashboard.Session.Keeps.{alerts_after, resume-alerts_after}

abbrev pub key_of : String → String
key_of tenant = concat (tenant ∷ "-secret-key" ∷ [])

-- Choosing a tenant sets the API key, leaves the alerts on the page, and keeps the runs of
-- `fetchData` that are under way, in front of the one that the change starts.
pub switch_tenant_lem :
    (b : Browser) (ws tenant : String) (s : Session)
    → str_eq (key_of tenant) s.page.api_key ≡ false
    → ((switch_tenant b ws tenant s).page.api_key ≡ key_of tenant)
      × ((switch_tenant b ws tenant s).page.alerts ≡ s.page.alerts)
      × ((switch_tenant b ws tenant s).tasks
          ≡ s.tasks
            ++ record {
              captured = record {
                api_key = key_of tenant;
                selected_attacker_ip = s.page.selected_attacker_ip;
              };
              stage = alerts;
            }
              ∷ [])
unfolding switch_tenant
switch_tenant_lem b ws tenant s other = ground arith

-- Until `GET /alerts` is answered for the new tenant, and for ever if that answer is an error, the
-- page goes on showing the alerts of the tenant before.
pub alerts-switch_tenant :
    (b c : Browser) (ws tenant : String) (s : Session) (captured : Captured) (r : Reply)
    → str_eq (key_of tenant) s.page.api_key ≡ false
    → ok_body r ≡ none
    → ((switch_tenant b ws tenant s).page.api_key ≡ key_of tenant)
      × ((resume c captured alerts r (switch_tenant b ws tenant s).page).0.alerts ≡ s.page.alerts)
      × ((resume c captured alerts r (switch_tenant b ws tenant s).page).0.api_key ≡ key_of tenant)
alerts-switch_tenant b c ws tenant s captured r other failed =
    let (key, shown, _) = switch_tenant_lem b ws tenant s other in
    let (after, key') = resume-alerts_after c captured r (switch_tenant b ws tenant s).page in
    (key, after ∙ rw (failed, alerts_after) shown, key' ∙ key)

answer_first :
    (c : Browser) (r : Reply) (s : Session) (k : Captured) (rest : List Task)
    → s.tasks ≡ record { captured = k; stage = alerts } ∷ rest
    → (answer c 0 r s).page ≡ (resume c k alerts r s.page).0
unfolding answer
answer_first c r s k rest e = simp (answer, e)

-- An answer to a request that was under way before the change of tenant is shown all the same: the
-- page has the new tenant's key and the alerts that were asked for under the old one.
pub late_answer_shown :
    (b c : Browser) (ws tenant : String) (s : Session) (k : Captured) (rest : List Task) (r : Reply)
    (v : Value)
    → str_eq (key_of tenant) s.page.api_key ≡ false
    → s.tasks ≡ record { captured = k; stage = alerts } ∷ rest
    → ok_body r ≡ some v
    → ((answer c 0 r (switch_tenant b ws tenant s)).page.api_key ≡ key_of tenant)
      × ((answer c 0 r (switch_tenant b ws tenant s)).page.alerts ≡ array_or_member "alerts" v)
late_answer_shown b c ws tenant s k rest r v other busy body =
    let s' = switch_tenant b ws tenant s in
    let (key, _, tasks) = switch_tenant_lem b ws tenant s other in
    let new : Task = record {
      captured = record {
        api_key = key_of tenant;
        selected_attacker_ip = s.page.selected_attacker_ip;
      };
      stage = alerts;
    } in
    let first =
      answer_first c r s' k (rest ++ new ∷ [])
        (tasks ∙ ap (λ (ts : List Task). ts ++ new ∷ []) busy) in
    let (after, key') = resume-alerts_after c k r s'.page in
    (rw first (key' ∙ key), rw first (after ∙ rw (body, alerts_after)))
