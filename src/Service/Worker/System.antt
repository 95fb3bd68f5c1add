-- ===== src/Service/Worker/System.antt =====
-- A worker (ingestion-service/internal/service/worker.go) with the alert service and the hub of the
-- clients (ingestion-service/internal/websocket/hub.go), in any order of what happens to them.
use multi_tenant_siem.Base.{
  ℕ, ◌≡◌, refl, ◌∙◌, ◌≢◌, inl, inr, Bool, true, false, not, Option, none, some, List, [], ◌∷◌, ◌++◌,
  arith, leb, ◌==◌, Bool-cases, length, is_empty,
}
use multi_tenant_siem.Detection.Model.{Event, Alert}
use multi_tenant_siem.Detection.BruteForce.{detect_brute_force}
use multi_tenant_siem.Detection.WebScan.{detect_web_scan}
use multi_tenant_siem.Service.Hub.{Hub, connect, disconnect, flush_batch}
use multi_tenant_siem.Service.Hub.Delivery.{owed, count-connect, count-keep, owed-tick}
use multi_tenant_siem.Service.Alerts.Agreement.{Agrees, create_alert-Agrees}
use multi_tenant_siem.Service.Worker.{
  Moment, Worker, batch_size, raise, examine, examine_all, insert_logs_batch, flush, Input, event,
  tick, close, step,
}

pub data Happening : Type 0 where
  take : Input → Bool → Happening
  join leave : ℕ → Happening
  send : (ℕ → Bool) → Happening

abbrev on_hub : (Hub → Hub) → Worker → Worker
on_hub f w = record w { alerts = record w.alerts { hub = f w.alerts.hub } }

unfoldable pub act : (ℕ → Moment) → Happening → Worker → Worker
unfolding step connect disconnect flush_batch
act m (take i commits) w = step commits m i w
act m (join c) w = on_hub (connect c) w
act m (leave c) w = on_hub (disconnect c) w
act m (send ok) w = on_hub (flush_batch ok) w

unfoldable pub serve : (ℕ → Moment) → List Happening → Worker → Worker
unfolding act
serve m [] w = w
serve m (h ∷ hs) w = serve m hs (act m h w)

-- The connection does not leave, and no write to it fails.
abbrev pub Remains : ℕ → List Happening → Type 0
Remains c [] = Unit
Remains c (take i commits ∷ hs) = Remains c hs
Remains c (join d ∷ hs) = Remains c hs
Remains c (leave d ∷ hs) = (d ≢ c) × Remains c hs
Remains c (send ok ∷ hs) = (ok c ≡ true) × Remains c hs

module _ (c : ℕ) (before : List Alert) where
  abbrev Told : Worker → Type 0
  Told w = Agrees c before w.alerts

  Told-raise :
      (now : ℕ) (row : Option (ℕ × ℕ)) (a : Option Alert) (w : Worker)
      → Told w
      → Told (raise now row a w)
  unfolding raise
  Told-raise now row none w h = h
  Told-raise now row (some a) w h = create_alert-Agrees c before now row a w.alerts h

  Told-examine : (m : Moment) (e : Event) (w : Worker) → Told w → Told (examine m e w)
  unfolding examine
  Told-examine m e w h =
      let b = detect_brute_force m.brute_force_at e w.logins in
      let w1 = raise m.brute_force_alert_at m.brute_force_row b.1 (record w { logins = b.0 }) in
      let s = detect_web_scan m.web_scan_at e w1.scans in
      Told-raise m.web_scan_alert_at m.web_scan_row s.1 (record w1 { scans = s.0 })
        (Told-raise m.brute_force_alert_at m.brute_force_row b.1 (record w { logins = b.0 }) h)

  Told-examine_all :
      (m : ℕ → Moment) (es : List Event) (w : Worker) → Told w → Told (examine_all m es w)
  unfolding examine_all
  Told-examine_all m [] w h = h
  Told-examine_all m (e ∷ es) w h =
      Told-examine_all m es (examine (m (length w.examined)) e w)
        (Told-examine (m (length w.examined)) e w h)

  Told-flush : (commits : Bool) (m : ℕ → Moment) (w : Worker) → Told w → Told (flush commits m w)
  unfolding flush
  Told-flush commits m w h = elim (Bool-cases (is_empty w.batch)) [
    | inl nothing ↦ rw (nothing, flush) h
    | inr some_there ↦
        rw (some_there, flush)
          (Told-examine_all m w.batch (insert_logs_batch commits w) (logged commits))
  ]
    where
      logged : (commits : Bool) → Told (insert_logs_batch commits w)
      logged true = unfold insert_logs_batch in h
      logged false = unfold insert_logs_batch in h

  Told-step :
      (commits : Bool) (m : ℕ → Moment) (i : Input) (w : Worker)
      → Told w
      → Told (step commits m i w)
  unfolding step
  Told-step commits m (event e) w h =
      let w1 = record w { batch = w.batch ++ e ∷ [] } in
      elim (Bool-cases (leb batch_size (length w1.batch))) [
        | inl full ↦ rw (full, step) (Told-flush commits m w1 h)
        | inr room ↦ rw (room, step) h
      ]
  Told-step commits m tick w h = Told-flush commits m w h
  Told-step commits m close w h = Told-flush commits m w h

  -- From events to the clients, with one worker that nothing interrupts within a step (several workers
  -- may store and broadcast in different orders): in every order of events, ticks, failures of the database and other
  -- connections' coming and going, if a connection that remains has been sent, or is about to be,
  -- exactly the alerts `before` and those whose rows the database took, each once and in their order,
  -- and the notifications and the labels of the metric are those of the rows, then it stays so.
  pub serve-Agrees :
      (m : ℕ → Moment) (hs : List Happening) (w : Worker)
      → Remains c hs
      → Agrees c before w.alerts
      → Agrees c before (serve m hs w).alerts
  unfolding serve act
  serve-Agrees m [] w r h = h
  serve-Agrees m (take i commits ∷ hs) w r h =
      serve-Agrees m hs (step commits m i w) r (Told-step commits m i w h)
  serve-Agrees m (join d ∷ hs) w r (slack, generated, sent, connected) =
      serve-Agrees m hs (on_hub (connect d) w) r
        (slack, generated, joined d w.alerts.hub ∙ sent, count-connect c d w.alerts.hub connected)
    where
      joined : (d : ℕ) (h : Hub) → owed c (connect d h) ≡ owed c h
      joined d h = unfold connect in refl
  serve-Agrees m (leave d ∷ hs) w (other, r) (slack, generated, sent, connected) =
      serve-Agrees m hs (on_hub (disconnect d) w) r (
        slack,
        generated,
        unfold disconnect in sent,
        unfold disconnect in
            count-keep c (λ e. not (e == d)) w.alerts.hub.clients (ground arith) ∙ connected,
      )
  serve-Agrees m (send ok ∷ hs) w (reach, r) (slack, generated, sent, connected) =
      let (same, connected') = owed-tick c ok w.alerts.hub reach connected in
      serve-Agrees m hs (on_hub (flush_batch ok) w) r (slack, generated, same ∙ sent, connected')
