-- ===== src/Live/Pooled.antt =====
-- Every alert that the database took is on the page, with several workers on one hub
-- (ingestion-service/internal/service/worker.go, internal/service/alert_service.go,
-- internal/websocket/hub.go) and the page of frontend/src/App.jsx at the end of a socket.

use multi_tenant_siem.Base.{
  ℕ, ◌≤◌, String, ◌≡◌, refl, sym, ap, ◌∙◌, inl, inr, Bool, true, false, ◌&&◌, List, [], ◌∷◌, ◌++◌,
  arith, ◌==◌, ==_iff, str_eq, eq_iff, eq_refl, Bool-cases, any, All, Memᴰ, append-nil, All-mem,
}
use multi_tenant_siem.Detection.Model.{Alert}
use multi_tenant_siem.Service.Json.{alert_json}
use multi_tenant_siem.Service.Hub.Delivery.{received, owed}
use multi_tenant_siem.Service.Pool.{Job, Local, Pool}
use multi_tenant_siem.Service.Pool.Ledger.{left_by}
use multi_tenant_siem.Service.Pool.Accounts.{tally, untold}
use multi_tenant_siem.Service.Pool.Served.{
  Happening, serve_all, Remains, IsServed, serve_all-IsServed,
}
use multi_tenant_siem.Dashboard.State.{Browser}
use multi_tenant_siem.Dashboard.Feed.{current_tenant_id, same_alert}
use multi_tenant_siem.Dashboard.Session.{Session, Input}
use multi_tenant_siem.Dashboard.Session.Tenants.{play}
use multi_tenant_siem.Live.Page.{packets, merge_all, AreLive, play-merge_all}
use multi_tenant_siem.Live.Shown.{packets_to, IsShown, received-IsShown}

-- Whether two alerts have the same fields.
abbrev pub equal : Alert → Alert → Bool
equal a b =
    a.id == b.id
    && (str_eq a.tenant_id b.tenant_id
        && (str_eq a.alert_type b.alert_type
            && (str_eq a.severity b.severity
                && (str_eq a.message b.message
                    && (str_eq a.source_ip b.source_ip && a.created_at == b.created_at)))))

and_true : (p q : Bool) → (p && q) ≡ true → (p ≡ true) × (q ≡ true)
and_true true q h = (refl, h)
and_true false q h = absurd (cc h)

equal_sound : (a b : Alert) → equal a b ≡ true → a ≡ b
equal_sound a b h =
    let (h1, r1) = and_true _ _ h in
    let (h2, r2) = and_true _ _ r1 in
    let (h3, r3) = and_true _ _ r2 in
    let (h4, r4) = and_true _ _ r3 in
    let (h5, r5) = and_true _ _ r4 in
    let (h6, h7) = and_true _ _ r5 in
    let e1 = (==_iff a.id b.id).0 h1 in
    let e2 = (eq_iff a.tenant_id b.tenant_id).0 h2 in
    let e3 = (eq_iff a.alert_type b.alert_type).0 h3 in
    let e4 = (eq_iff a.severity b.severity).0 h4 in
    let e5 = (eq_iff a.message b.message).0 h5 in
    let e6 = (eq_iff a.source_ip b.source_ip).0 h6 in
    let e7 = (==_iff a.created_at b.created_at).0 h7 in
    λ i. record {
      id = e1 i;
      tenant_id = e2 i;
      alert_type = e3 i;
      severity = e4 i;
      message = e5 i;
      source_ip = e6 i;
      created_at = e7 i;
    }

equal_self : (a : Alert) → equal a a ≡ true
equal_self a =
    rw
      (
        (==_iff a.id a.id).1 refl,
        eq_refl a.tenant_id,
        eq_refl a.alert_type,
        eq_refl a.severity,
        eq_refl a.message,
        eq_refl a.source_ip,
        (==_iff a.created_at a.created_at).1 refl,
      )
      refl

tally-mem :
    {A : Type 0} (q : A → Bool) (x : A) (xs : List A) → Memᴰ x xs → q x ≡ true → 1 ≤ tally q xs
tally-mem q x [] m h = elim m [ ]
tally-mem q x (y ∷ xs) (Memᴰ.head e) h = let h' = ap q (sym e) ∙ h in rw h' (omega arith)
tally-mem q x (y ∷ xs) (Memᴰ.tail m) h = omega (arith, tally-mem q x xs m h)

tally_other :
    {A : Type 0} (q : A → Bool) (x : A) (xs : List A) → q x ≡ false → tally q (x ∷ xs) ≡ tally q xs
tally_other q x xs h = rw h (omega arith)

mem-of_tally : (a : Alert) (xs : List Alert) → 1 ≤ tally (equal a) xs → Memᴰ a xs
mem-of_tally a [] h = absurd (omega arith)
mem-of_tally a (x ∷ xs) h = elim (Bool-cases (equal a x)) [
  | inl same ↦ Memᴰ.head (equal_sound a x same)
  | inr other ↦ Memᴰ.tail (mem-of_tally a xs (omega (arith, tally_other (equal a) x xs other, h)))
]

-- A worker without a job.
abbrev pub IsIdle : Local → Type 0
IsIdle l = l.jobs ≡ []

left_by-idle : (weight : Job → ℕ) (ls : List Local) → All IsIdle ls → left_by weight ls ≡ 0
left_by-idle weight [] h = refl
left_by-idle weight (l ∷ ls) (none_left, h) = rw none_left (omega (arith, left_by-idle weight ls h))

module _ (time_text : ℕ → String) where
  -- From the events to the page, with several workers. Their steps, job by job in any order, ticks,
  -- failures of the database, flushes of the hub and other connections' coming and going make a run
  -- after which no worker has a job left and nothing waits in the hub; a page whose connection is not
  -- removed, with no write to it failing, gets the packets that the hub sends to it, among any other
  -- steps that change no tenant and bring no list of alerts. Then every alert whose row the database
  -- took and whose tenant is that of the socket's key is on the page, if before the run the counts
  -- of this alert agreed.
  pub pool_shown :
      (c before : ℕ) (hs : List Happening) (p : Pool) (ws : String)
      (inputs : List (Browser × Input)) (s : Session) (a : Alert)
      → Remains c hs
      → IsServed c (equal a) (λ l. true) before p
      → All IsIdle (serve_all hs p).workers
      → (serve_all hs p).shared.alerts.hub.batch ≡ []
      → packets inputs ≡ packets_to time_text c (serve_all hs p).shared.alerts.hub.sent
      → AreLive ws inputs s
      → Memᴰ a (serve_all hs p).shared.alerts.stored
      → a.tenant_id ≡ current_tenant_id s.socket_key
      → any (same_alert (alert_json time_text a)) (play ws inputs s).page.alerts ≡ true
  pool_shown c before hs p ws inputs s a remains served idle flushed sent live stored mine =
      let hub = (serve_all hs p).shared.alerts.hub in
      let tenant = current_tenant_id s.socket_key in
      let end = serve_all-IsServed c (equal a) (λ l. true) before hs p remains served in
      let nothing_waits : owed c hub ≡ received c hub.sent =
        ap (λ (xs : List Alert). received c hub.sent ++ xs) flushed
        ∙ append-nil (received c hub.sent) in
      let was_sent : Memᴰ a (received c hub.sent) = mem-of_tally a (received c hub.sent) (
        omega (
          arith,
          end.told,
          left_by-idle (untold (equal a)) (serve_all hs p).workers idle,
          ap (tally (equal a)) nothing_waits,
          tally-mem (equal a) a (serve_all hs p).shared.alerts.stored stored (equal_self a),
        )) in
      let shown =
        All-mem
          (IsShown time_text tenant
            (merge_all tenant (packets_to time_text c hub.sent) s.page.alerts))
          (received c hub.sent) (received-IsShown time_text c tenant hub.sent s.page.alerts)
          was_sent in
      rw (play-merge_all ws inputs s live, sent) (shown mine)
