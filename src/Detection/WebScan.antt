-- ===== src/Detection/WebScan.antt =====
-- ingestion-service/internal/detection/scan_detector.go
pub mod Stream
use multi_tenant_siem.Base.{
  ℕ, zero, suc, ◌+◌, ◌-◌, ◌≤◌, ◌<◌, String, ◌≡◌, refl, sym, ap, ◌∙◌, ◌≢◌, ◌↔◌, ◌⊎◌, inl, inr, Bool,
  true, false, not, ◌&&◌, ◌||◌, Option, none, some, List, [], ◌∷◌, ◌++◌, arith, ltb, leb, ◌==◌,
  str_eq, eq_iff, eq_refl, if◌then◌else◌, Bool-cases, Option-cases, length, any, keep, All, Memᴰ,
  concat,
}
use multi_tenant_siem.Js.{Value, str, field_of}
use multi_tenant_siem.Detection.Model.{Event, Alert, minute}
use multi_tenant_siem.Detection.Store.{get, put}

pub record ScanTracker : Type 0 where
  pub count : ℕ
  pub last_seen : ℕ

-- `scanMap`
abbrev pub ScanMap : Type 0
ScanMap = List (String × ScanTracker)

abbrev pub suspicious_paths : List String
suspicious_paths =
    "/admin" ∷ "/wp-admin" ∷ "/wp-login.php" ∷ "/phpmyadmin" ∷ "/.env" ∷ "/.git/config"
    ∷ "/config.php" ∷ "/backup.zip" ∷ []

unfoldable pub is_suspicious_path : String → Bool
is_suspicious_path path = any (str_eq path) suspicious_paths

-- `event.Payload["path"].(string)`
abbrev pub text_of_payload : Value → Option String
text_of_payload (str s) = some s
text_of_payload _ = none

-- The guards before the lock is taken.
unfoldable pub is_probe : Event → Bool
unfolding is_suspicious_path
is_probe event =
    str_eq event.source "nginx" && elim (text_of_payload (field_of "path" event.payload)) [
      | none ↦ false
      | some path ↦ is_suspicious_path path
    ]

-- The address, or "unknown" if the event has none.
abbrev pub ip_of : Event → String
ip_of event = if str_eq event.ip_address "" then "unknown" else event.ip_address

abbrev pub key_of : Event → String
key_of event = concat (event.tenant_id ∷ ":" ∷ ip_of event ∷ [])

abbrev pub web_scan_alert : Event → Alert
web_scan_alert event = record {
  id = 0;
  tenant_id = event.tenant_id;
  alert_type = "WEB_SCAN";
  severity = "CRITICAL";
  message = "Web scanning behavior detected";
  source_ip = ip_of event;
  created_at = 0;
}

-- From a tracker, the new tracker and whether an alert is raised.
unfoldable pub track : ℕ → Option ScanTracker → ScanTracker × Bool
track now none = (record { count = 1; last_seen = now }, false)
track now (some tracker) =
    let count = (if ltb minute (now - tracker.last_seen) then 0 else tracker.count) + 1 in
    if leb 5 count
    then (record { count = 0; last_seen = now }, true)
    else (record { count = count; last_seen = now }, false)

unfoldable pub detect_web_scan : ℕ → Event → ScanMap → ScanMap × Option Alert
unfolding is_probe track get put
detect_web_scan now event scans =
    if is_probe event
    then (let (tracker, raised) = track now (get (key_of event) scans) in
        (put (key_of event) tracker scans, if raised then some (web_scan_alert event) else none))
    else (scans, none)
