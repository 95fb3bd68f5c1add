-- ===== src/Live/Shown.antt =====
-- Every alert that the database took is on the page: the worker, the alert service and the hub of
-- ingestion-service/internal with the page of frontend/src/App.jsx at the end of a socket.
use multi_tenant_siem.Base.{
  ℕ, String, ◌≡◌, refl, sym, ap, ◌∙◌, inl, inr, true, Option, some, List, [], ◌∷◌, ◌++◌, ◌==◌,
  eq_refl, if◌then◌else◌, Bool-cases, any, All, Memᴰ, append-nil, All-mem, All-of_mem, All-append,
}
use multi_tenant_siem.Js.{Value, arr, array, strict_eq}
use multi_tenant_siem.Detection.Model.{Alert}
use multi_tenant_siem.Service.Json.{alert_json, values}
use multi_tenant_siem.Service.Hub.Delivery.{received}
use multi_tenant_siem.Service.Alerts.Agreement.{Agrees}
use multi_tenant_siem.Service.Worker.{Moment, Worker}
use multi_tenant_siem.Service.Worker.System.{Happening, serve, Remains, serve-Agrees}
use multi_tenant_siem.Dashboard.State.{Browser}
use multi_tenant_siem.Dashboard.Feed.{
  current_tenant_id, same_alert, merge, incoming_alerts, belongs_to,
}
use multi_tenant_siem.Dashboard.Feed.Merge.{HasKey, merge_complete}
use multi_tenant_siem.Dashboard.Session.{Session, Input}
use multi_tenant_siem.Dashboard.Session.Tenants.{play}
use multi_tenant_siem.Http.Alerts.Honest.{elements-array}
use multi_tenant_siem.Live.Page.{packets, merge_all, AreLive, play-merge_all, merge_all-keeps}

module _ (time_text : ℕ → String) where
  -- What `WriteJSON` writes for a batch, as the page parses it.
  unfoldable pub packet_of : List Alert → Option Value
  packet_of batch = some (arr (array (values time_text batch)))

  -- The packets that a connection is sent.
  abbrev pub packets_to : ℕ → List (ℕ × List Alert) → List (Option Value)
  packets_to c [] = []
  packets_to c ((d, batch) ∷ rest) =
      if d == c then packet_of batch ∷ packets_to c rest else packets_to c rest

  mem-values :
      (a : Alert) (xs : List Alert)
      → Memᴰ a xs
      → Memᴰ (alert_json time_text a) (values time_text xs)
  mem-values a [] m = elim m [ ]
  mem-values a (x ∷ xs) (Memᴰ.head e) = Memᴰ.head (ap (alert_json time_text) e)
  mem-values a (x ∷ xs) (Memᴰ.tail m) = Memᴰ.tail (mem-values a xs m)

  alert_json-HasKey : (a : Alert) → HasKey (alert_json time_text a)
  unfolding alert_json
  alert_json-HasKey a = (refl, tt, tt)

  alert_json-belongs_to :
      (a : Alert) (tenant : String)
      → a.tenant_id ≡ tenant
      → belongs_to tenant (alert_json time_text a) ≡ true
  unfolding alert_json belongs_to strict_eq
  alert_json-belongs_to a tenant e = rw e (eq_refl tenant)

  -- One batch.
  pub merge-shows :
      (tenant : String) (batch : List Alert) (vs : List Value) (a : Alert)
      → Memᴰ a batch
      → a.tenant_id ≡ tenant
      → any (same_alert (alert_json time_text a)) (merge_all tenant (packet_of batch ∷ []) vs)
        ≡ true
  unfolding merge_all packet_of incoming_alerts
  merge-shows tenant batch vs a m mine =
      merge_complete tenant (arr (array (values time_text batch))) vs (alert_json time_text a)
        (rw elements-array (mem-values a batch m)) (alert_json-belongs_to a tenant mine)
        (alert_json-HasKey a)

  -- The alert is on the list, if it is the tenant's.
  abbrev pub IsShown : String → List Value → Alert → Type 0
  IsShown tenant vs a = a.tenant_id ≡ tenant → any (same_alert (alert_json time_text a)) vs ≡ true

  pub received-IsShown :
      (c : ℕ) (tenant : String) (sent : List (ℕ × List Alert)) (vs : List Value)
      → All (IsShown tenant (merge_all tenant (packets_to c sent) vs)) (received c sent)
  unfolding merge_all packet_of
  received-IsShown c tenant [] vs = tt
  received-IsShown c tenant ((d, batch) ∷ rest) vs = elim (Bool-cases (d == c)) [
    | inr other ↦ rw other (received-IsShown c tenant rest vs)
    | inl same ↦
        let p = arr (array (values time_text batch)) in
        let now = merge tenant p vs in
        rw same (
          All-append _ batch (received c rest)
            (All-of_mem _ batch λ a m mine.
              merge_all-keeps tenant (alert_json time_text a) (packets_to c rest) now
                (merge-shows tenant batch vs a m mine))
            (received-IsShown c tenant rest now))
  ]

  mem-append_right : (a : Alert) (xs ys : List Alert) → Memᴰ a ys → Memᴰ a (xs ++ ys)
  mem-append_right a [] ys m = m
  mem-append_right a (x ∷ xs) ys m = Memᴰ.tail (mem-append_right a xs ys m)

  -- From the events to the page. One worker, the alert service and the hub run in any order of events,
  -- ticks, failures of the database and other connections' coming and going; a page whose connection
  -- remains gets the packets that the hub sends to it, among any other steps that change no tenant
  -- and bring no list of alerts. Then, once nothing waits in the hub, every alert whose row the
  -- database took and whose tenant is that of the socket's key is on the page.
  pub live_shown :
      (c : ℕ) (before : List Alert) (m : ℕ → Moment) (hs : List Happening) (w : Worker)
      (ws : String) (inputs : List (Browser × Input)) (s : Session) (a : Alert)
      → Remains c hs
      → Agrees c before w.alerts
      → (serve m hs w).alerts.hub.batch ≡ []
      → packets inputs ≡ packets_to c (serve m hs w).alerts.hub.sent
      → AreLive ws inputs s
      → Memᴰ a (serve m hs w).alerts.stored
      → a.tenant_id ≡ current_tenant_id s.socket_key
      → any (same_alert (alert_json time_text a)) (play ws inputs s).page.alerts ≡ true
  live_shown c before m hs w ws inputs s a remains agrees flushed sent live stored mine =
      let w' = serve m hs w in
      let tenant = current_tenant_id s.socket_key in
      let owed = (serve-Agrees c before m hs w remains agrees).2 in
      let all : received c w'.alerts.hub.sent ≡ before ++ w'.alerts.stored =
        sym (append-nil (received c w'.alerts.hub.sent))
        ∙ ap (λ (xs : List Alert). received c w'.alerts.hub.sent ++ xs) (sym flushed)
        ∙ owed in
      let shown =
        All-mem (IsShown tenant (merge_all tenant (packets_to c w'.alerts.hub.sent) s.page.alerts))
          (received c w'.alerts.hub.sent)
          (received-IsShown c tenant w'.alerts.hub.sent s.page.alerts)
          (rw all (mem-append_right a before w'.alerts.stored stored)) in
      rw (play-merge_all ws inputs s live, sent) (shown mine)
