-- ===== src/Live/Page.antt =====
-- What the packets of the socket do to the page (`onmessage` of frontend/src/App.jsx), among the
-- other steps of a session.
use multi_tenant_siem.Base.{
  ℕ, String, ◌≡◌, refl, sym, ap, ◌∙◌, inl, inr, Bool, true, false, Option, none, some, List, [],
  ◌∷◌, arith, if◌then◌else◌, Option-cases, any, any-append,
}
use multi_tenant_siem.Js.{Value}
use multi_tenant_siem.Dashboard.State.{Dashboard, Browser}
use multi_tenant_siem.Dashboard.Fetch.{Reply, Stage, alerts, ok_body, resume, Captured}
use multi_tenant_siem.Dashboard.Feed.{current_tenant_id, same_alert, new_alerts, merge, on_message}
use multi_tenant_siem.Dashboard.Feed.Merge.{merge-append}
use multi_tenant_siem.Dashboard.Session.{Session, Task, Input, step, answer, start_fetch, task_at}
use multi_tenant_siem.Dashboard.Session.Keeps.{
  log_alerts-SameAlerts, on_click-SameAlerts, fetch_traffic_analytics-SameAlerts,
  fetch_status_code_analytics-SameAlerts, fetch_attackers-SameAlerts, resume-SameAlerts,
  alerts_after, resume-alerts_after,
}
use multi_tenant_siem.Dashboard.Session.Tenants.{play}

-- The packets of a run, in their order; `none` is one that `JSON.parse` refuses.
abbrev pub packets : List (Browser × Input) → List (Option Value)
packets [] = []
packets ((b, Input.packet p) ∷ rest) = p ∷ packets rest
packets (_ ∷ rest) = packets rest

-- The packets merged into the list of alerts, one after the other.
unfoldable pub merge_all : String → List (Option Value) → List Value → List Value
merge_all tenant [] vs = vs
merge_all tenant (none ∷ ps) vs = merge_all tenant ps vs
merge_all tenant (some p ∷ ps) vs = merge_all tenant ps (merge tenant p vs)

-- An answer that does not replace the alerts: to another request, or without a good body.
abbrev pub IsNoListAt : Stage → Reply → Type 0
IsNoListAt alerts r = ok_body r ≡ none
IsNoListAt _ r = Unit

abbrev pub IsNoListTo : Option Task → Reply → Type 0
IsNoListTo none r = Unit
IsNoListTo (some t) r = IsNoListAt t.stage r

-- An input that changes no tenant and brings no list of alerts.
abbrev pub IsLive : Session → Input → Type 0
IsLive s (Input.switch tenant) = ⊥
IsLive s (Input.answered i r) = IsNoListTo (task_at i s.tasks) r
IsLive s _ = Unit

abbrev pub AreLive : String → List (Browser × Input) → Session → Type 0
AreLive ws [] s = Unit
AreLive ws ((b, input) ∷ rest) s = IsLive s input × AreLive ws rest (step b ws input s)

-- The alerts of the page and the key of its socket.
abbrev pub Feed : Type 0
Feed = List Value × String

abbrev pub feed : Session → Feed
feed s = (s.page.alerts, s.socket_key)

resume-same :
    (b : Browser) (c : Captured) (stage : Stage) (r : Reply) (d : Dashboard)
    → IsNoListAt stage r
    → (resume b c stage r d).0.alerts ≡ d.alerts
resume-same b c alerts r d h = (resume-alerts_after b c r d).0 ∙ rw (h, alerts_after)
resume-same b c stage r d h = (resume-SameAlerts b c stage r d (cc)).alerts

answer-feed :
    (b : Browser) (i : ℕ) (r : Reply) (s : Session)
    → IsNoListTo (task_at i s.tasks) r
    → feed (answer b i r s) ≡ feed s
unfolding answer
answer-feed b i r s h = elim (Option-cases (task_at i s.tasks)) [
  | inl nobody ↦ rw (nobody, answer) refl
  | inr (t, found) ↦
      rw (found, answer)
        (ap (λ (vs : List Value). (vs, s.socket_key))
          (resume-same b t.captured t.stage r s.page (rw found at h)))
]

refresh-feed :
    (b : Browser) (busy : Bool) (s : Session) → feed (if busy then s else start_fetch b s) ≡ feed s
unfolding start_fetch
refresh-feed b true s = refl
refresh-feed b false s = refl

on_message-feed :
    (b : Browser) (p : Option Value) (s : Session)
    → (on_message b s.socket_key p s.page).alerts
      ≡ merge_all (current_tenant_id s.socket_key) (p ∷ []) s.page.alerts
unfolding on_message merge_all
on_message-feed b none s = refl
on_message-feed b (some p) s =
    (log_alerts-SameAlerts b (new_alerts (current_tenant_id s.socket_key) p s.page.alerts) _).alerts

-- One step: the packet, if it brings one, is merged under the key of the socket.
pub step-feed :
    (b : Browser) (ws : String) (input : Input) (s : Session)
    → IsLive s input
    → feed (step b ws input s) ≡ (
      merge_all (current_tenant_id s.socket_key) (packets ((b, input) ∷ [])) s.page.alerts,
      s.socket_key,
    )
unfolding step merge_all
step-feed b ws Input.refresh s h = refresh-feed b s.page.loading s
step-feed b ws (Input.switch tenant) s h = absurd h
step-feed b ws (Input.answered i r) s h = answer-feed b i r s h
step-feed b ws (Input.packet p) s h =
    ap (λ (vs : List Value). (vs, s.socket_key)) (on_message-feed b p s)
step-feed b ws Input.opened s h = refl
step-feed b ws Input.failed s h = refl
step-feed b ws Input.closed s h = refl
step-feed b ws Input.no_socket s h = refl
step-feed b ws (Input.traffic_answered r) s h =
    ap (λ (vs : List Value). (vs, s.socket_key))
      (fetch_traffic_analytics-SameAlerts r s.page).alerts
step-feed b ws (Input.status_codes_answered r) s h =
    ap (λ (vs : List Value). (vs, s.socket_key))
      (fetch_status_code_analytics-SameAlerts r s.page).alerts
step-feed b ws (Input.attackers_answered r) s h =
    ap (λ (vs : List Value). (vs, s.socket_key)) (fetch_attackers-SameAlerts r s.page).alerts
step-feed b ws Input.timers_due s h = refl
step-feed b ws (Input.click c) s h =
    ap (λ (vs : List Value). (vs, s.socket_key)) (on_click-SameAlerts b c s.page).alerts

merge_all-step :
    (tenant : String) (b : Browser) (input : Input) (rest : List (Browser × Input))
    (vs : List Value)
    → merge_all tenant (packets ((b, input) ∷ rest)) vs
      ≡ merge_all tenant (packets rest) (merge_all tenant (packets ((b, input) ∷ [])) vs)
unfolding merge_all
merge_all-step tenant b (Input.packet none) rest vs = refl
merge_all-step tenant b (Input.packet (some p)) rest vs = refl
merge_all-step tenant b Input.refresh rest vs = refl
merge_all-step tenant b input rest vs = refl

-- In a run that changes no tenant and brings no list of alerts, the alerts on the page are those that
-- were there with every packet merged in, under the key of the socket.
pub play-merge_all :
    (ws : String) (inputs : List (Browser × Input)) (s : Session)
    → AreLive ws inputs s
    → (play ws inputs s).page.alerts
      ≡ merge_all (current_tenant_id s.socket_key) (packets inputs) s.page.alerts
unfolding play merge_all
play-merge_all ws [] s h = refl
play-merge_all ws ((b, input) ∷ rest) s (h, hs) =
    let one = step-feed b ws input s h in
    play-merge_all ws rest (step b ws input s) hs
    ∙ ap (λ (f : Feed). merge_all (current_tenant_id f.1) (packets rest) f.0) one
    ∙ sym (merge_all-step (current_tenant_id s.socket_key) b input rest s.page.alerts)

-- What is on the page stays.
pub merge_all-keeps :
    (tenant : String) (x : Value) (ps : List (Option Value)) (vs : List Value)
    → any (same_alert x) vs ≡ true
    → any (same_alert x) (merge_all tenant ps vs) ≡ true
unfolding merge_all
merge_all-keeps tenant x [] vs h = h
merge_all-keeps tenant x (none ∷ ps) vs h = merge_all-keeps tenant x ps vs h
merge_all-keeps tenant x (some p ∷ ps) vs h =
    merge_all-keeps tenant x ps (merge tenant p vs)
      (rw (merge-append, any-append, h) (ground arith))
