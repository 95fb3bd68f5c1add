-- ===== src/Service/Json.antt =====
-- An alert as JSON (the tags of ingestion-service/internal/model/alert.go), as the hub and the
-- handlers send it and frontend/src/App.jsx reads it. How `encoding/json` writes a time is an
-- argument.
use multi_tenant_siem.Base.{ℕ, String, ◌≡◌, refl, false, some, List, [], ◌∷◌, arith}
use multi_tenant_siem.Js.{Value, num, str, obj, field, end, strict_eq}
use multi_tenant_siem.Detection.Model.{Event, Alert}
use multi_tenant_siem.Detection.BruteForce.{FailedLogins, detect_brute_force}
use multi_tenant_siem.Dashboard.Views.Alerts.{is_brute_force, feed_title}

unfoldable pub alert_json : (ℕ → String) → Alert → Value
alert_json time_text a = obj (
    field "id" (num a.id) (
      field "tenant_id" (str a.tenant_id) (
        field "alert_type" (str a.alert_type) (
          field "severity" (str a.severity) (
            field "message" (str a.message) (
              field "source_ip" (str a.source_ip)
                (field "created_at" (str (time_text a.created_at)) end)))))))

-- The elements of an array of alerts.
abbrev pub values : (ℕ → String) → List Alert → List Value
values time_text [] = []
values time_text (a ∷ rest) = alert_json time_text a ∷ values time_text rest

-- The type of an alert of the brute force detector.
alert_type-detect_brute_force :
    (t : ℕ) (e : Event) (logins : FailedLogins) (a : Alert)
    → (detect_brute_force t e logins).1 ≡ some a
    → a.alert_type ≡ "BRUTE_FORCE"
unfolding detect_brute_force
alert_type-detect_brute_force t e logins a h = ground arith

-- The page compares the type of an alert with "brute_force", which the detector never writes: each
-- alert that the brute force detector raises is shown in the feed under the title of a web scan.
pub feed_title-detect_brute_force :
    (time_text : ℕ → String) (t : ℕ) (e : Event) (logins : FailedLogins) (a : Alert)
    → (detect_brute_force t e logins).1 ≡ some a
    → (is_brute_force (alert_json time_text a) ≡ false)
      × (feed_title (alert_json time_text a) ≡ "Suspicious Web Directory Scan")
unfolding alert_json is_brute_force feed_title strict_eq
feed_title-detect_brute_force time_text t e logins a h =
    let type = alert_type-detect_brute_force t e logins a h in rw type (refl, refl)
