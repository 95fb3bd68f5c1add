-- ===== src/Service/Tables/Silent.antt =====
-- Events of an address that the table of the alerts has no room for
-- (ingestion-service/internal/db/db.go, internal/service).
use multi_tenant_siem.Base.{
  ℕ, ◌+◌, String, ◌≡◌, refl, sym, ap, ◌∙◌, ◌≢◌, inl, inr, true, false, Option, none, some, List, [],
  ◌∷◌, arith, str_eq, eq_iff, Bool-cases, length, All, length-append,
}
use multi_tenant_siem.Detection.Model.{Event, Alert}
use multi_tenant_siem.Detection.Suppressor.{should_suppress_alert}
use multi_tenant_siem.Detection.BruteForce.{brute_force_alert, detect_brute_force}
use multi_tenant_siem.Detection.WebScan.{ip_of, web_scan_alert, detect_web_scan}
use multi_tenant_siem.Service.Hub.{Hub}
use multi_tenant_siem.Service.Alerts.{AlertService, create_alert}
use multi_tenant_siem.Service.Tables.{fits_varchar, fits_alert_columns}
use multi_tenant_siem.Service.Worker.{Moment, Worker, raise, examine, examine_all}
use multi_tenant_siem.Service.Worker.Batches.{kept-examine}

-- What is known outside the service: the rows, the hub, the metric and the notifications.
abbrev pub Told : Type 0
Told = List Alert × Hub × List (String × String) × List Alert

abbrev pub told : AlertService → Told
told s = (s.stored, s.hub, s.generated, s.slack)

told-create_alert :
    (now : ℕ) (a : Alert) (s : AlertService) → told (create_alert now none a s).0 ≡ told s
unfolding create_alert
told-create_alert now a s = elim (Bool-cases (should_suppress_alert now a s.suppressor).1) [
  | inl held ↦ rw (held, create_alert) refl
  | inr fresh ↦ rw (fresh, create_alert) refl
]

told-raise :
    (now : ℕ) (row : Option (ℕ × ℕ)) (a : Option Alert) (w : Worker)
    → row ≡ none
    → told (raise now row a w).alerts ≡ told w.alerts
unfolding raise
told-raise now row none w lost = refl
told-raise now row (some a) w lost = rw lost (told-create_alert now a w.alerts)

told-examine :
    (m : Moment) (e : Event) (w : Worker)
    → m.brute_force_row ≡ none
    → m.web_scan_row ≡ none
    → told (examine m e w).alerts ≡ told w.alerts
unfolding examine
told-examine m e w lost lost' =
    let b = detect_brute_force m.brute_force_at e w.logins in
    let w1 = raise m.brute_force_alert_at m.brute_force_row b.1 (record w { logins = b.0 }) in
    let s = detect_web_scan m.web_scan_at e w1.scans in
    told-raise m.web_scan_alert_at m.web_scan_row s.1 (record w1 { scans = s.0 }) lost'
    ∙ told-raise m.brute_force_alert_at m.brute_force_row b.1 (record w { logins = b.0 }) lost

true_ne_false : true ≢ false
true_ne_false h = cc

module _ (insert : Alert → Option (ℕ × ℕ)) where
  -- The answers to the INSERTs of these events are those of `insert`.
  abbrev pub Answers : (ℕ → Moment) → ℕ → List Event → Type 0
  Answers m n [] = Unit
  Answers m n (e ∷ es) =
      ((m n).brute_force_row ≡ insert (brute_force_alert e))
      × ((m n).web_scan_row ≡ insert (web_scan_alert e))
      × Answers m (n + 1) es

  abbrev pub IsTooLong : Event → Type 0
  IsTooLong e = fits_varchar 45 e.ip_address ≡ false

  brute_force_lost : (e : Event) → IsTooLong e → fits_alert_columns (brute_force_alert e) ≡ false
  unfolding fits_alert_columns
  brute_force_lost e long = ground arith

  ip_of-long : (e : Event) → IsTooLong e → ip_of e ≡ e.ip_address
  unfolding fits_varchar
  ip_of-long e long = elim (Bool-cases (str_eq e.ip_address "")) [
    | inl empty ↦
        absurd
          (true_ne_false (sym (ap (fits_varchar 45) ((eq_iff e.ip_address "").0 empty)) ∙ long))
    | inr there ↦ rw there refl
  ]

  web_scan_lost : (e : Event) → IsTooLong e → fits_alert_columns (web_scan_alert e) ≡ false
  unfolding fits_alert_columns
  web_scan_lost e long = let at = ap (fits_varchar 45) (ip_of-long e long) ∙ long in ground arith

  examined-examine :
      (m : Moment) (e : Event) (w : Worker)
      → length (examine m e w).examined ≡ length w.examined + 1
  examined-examine m e w =
      ap (λ k. length k.3) (kept-examine m e w) ∙ length-append w.examined (e ∷ [])

  -- A long address keeps an attacker unseen. If the database refuses alerts whose texts are longer
  -- than their columns, then of events whose address has more than 45 characters, however many and
  -- whatever they are, no alert is stored, sent to the clients, counted or notified.
  pub long_address_silent :
      (m : ℕ → Moment) (es : List Event) (w : Worker)
      → ((a : Alert) → fits_alert_columns a ≡ false → insert a ≡ none)
      → Answers m (length w.examined) es
      → All IsTooLong es
      → told (examine_all m es w).alerts ≡ told w.alerts
  unfolding examine_all
  long_address_silent m [] w refuses answers long = refl
  long_address_silent m (e ∷ es) w refuses (brute, scan, answers) (long, longs) =
      let n = length w.examined in
      let w' = examine (m n) e w in
      long_address_silent m es w' refuses (rw (examined-examine (m n) e w) answers) longs
      ∙ told-examine (m n) e w (brute ∙ refuses (brute_force_alert e) (brute_force_lost e long))
          (scan ∙ refuses (web_scan_alert e) (web_scan_lost e long))
