-- ===== src/Examples/Detectors.antt =====
-- Runs of the detectors (ingestion-service/internal/detection).
use multi_tenant_siem.Base.{
  ◌*◌, ℕ, ◌+◌, String, ◌≡◌, refl, true, ◌&&◌, none, some, List, [], ◌∷◌, arith, if◌then◌else◌,
  head?,
}
use multi_tenant_siem.Js.{str, Fields, field, end}
use multi_tenant_siem.Detection.Model.{Event, Alert, minute}
use multi_tenant_siem.Detection.Keys.{NoColon, key_of-injective}
use multi_tenant_siem.Detection.BruteForce.{is_login_failure, brute_force_alert, detect_brute_force}
use multi_tenant_siem.Detection.BruteForce.Stream.{logins_after, failures, detect_brute_force_lem}
use multi_tenant_siem.Detection.WebScan.{is_probe, web_scan_alert, detect_web_scan}
use multi_tenant_siem.Detection.WebScan.Stream.{scans_after, probes, detect_web_scan_lem}
use multi_tenant_siem.Detection.Suppressor
use multi_tenant_siem.Detection.Suppressor.{is_repeat, should_suppress_alert}
use multi_tenant_siem.Detection.Suppressor.Stream
use multi_tenant_siem.Detection.Suppressor.Stream.{
  seen_after, passed, IsSpaced, should_suppress_alert_lem,
}
use multi_tenant_siem.Detection.Streaks.{is_fifth}
use multi_tenant_siem.Detection.Keys.{NoColon}
use multi_tenant_siem.Detection.Pace.{paced, detect_brute_force-paced}

abbrev pub event_from : String → String → String → Fields → Event
event_from tenant ip source payload = record {
  tenant_id = tenant;
  source = source;
  event_type = "auth_failure";
  timestamp = 0;
  severity = "MEDIUM";
  ip_address = ip;
  hostname = "host1";
  message = "Failed password for root";
  payload = payload;
}

abbrev pub failure : Event
failure = event_from "tenant_1" "10.0.0.7" "ssh" end

abbrev probe : Event
probe = event_from "tenant_1" "10.0.0.7" "nginx" (field "path" (str "/.env") end)

-- Four login failures, half a minute apart.
abbrev four : List (ℕ × Event)
four = paced 4 0 (30 * 1000000000) failure

detect_brute_force_lem_example : (detect_brute_force (2 * minute) failure (logins_after four)).1 ≡ (
    if is_login_failure failure && is_fifth (2 * minute ∷ failures "tenant_1:10.0.0.7" four)
    then some (brute_force_alert failure)
    else none)
detect_brute_force_lem_example = detect_brute_force_lem (2 * minute) failure four

abbrev four_probes : List (ℕ × Event)
four_probes = paced 4 0 (30 * 1000000000) probe

detect_web_scan_lem_example : (detect_web_scan (2 * minute) probe (scans_after four_probes)).1 ≡ (
    if is_probe probe && is_fifth (2 * minute ∷ probes "tenant_1:10.0.0.7" four_probes)
    then some (web_scan_alert probe)
    else none)
detect_web_scan_lem_example = detect_web_scan_lem (2 * minute) probe four_probes

abbrev pub raised : Alert
raised = brute_force_alert failure

abbrev earlier : List (ℕ × Alert)
earlier = (0, raised) ∷ []

should_suppress_alert_lem_example :
    ((should_suppress_alert (3 * minute) raised (seen_after earlier)).1
      ≡ is_repeat (3 * minute) (head? (passed (Stream.times (Suppressor.key_of raised) earlier))))
    × IsSpaced (passed (Stream.times (Suppressor.key_of raised) ((3 * minute, raised) ∷ earlier)))
should_suppress_alert_lem_example = should_suppress_alert_lem (3 * minute) raised earlier

failure_is_one : is_login_failure failure ≡ true
unfolding is_login_failure
failure_is_one = refl

detect_brute_force-paced_example :
    (detect_brute_force
      (0 + 4 * (50 * 1000000000))
      failure
      (logins_after (paced 4 0 (50 * 1000000000) failure))).1
    ≡ some (brute_force_alert failure)
detect_brute_force-paced_example =
    detect_brute_force-paced 4 0 (50 * 1000000000) failure failure_is_one (omega arith)

no_colon : NoColon "tenant_1"
no_colon = ground arith

abbrev spoofed : Event
spoofed = event_from "acme" "eu:10.0.0.7" "ssh" end

abbrev victim : Event
victim = event_from "acme:eu" "10.0.0.7" "ssh" end

-- Two events of one tenant and one address.
abbrev first_of_t1 : Event
first_of_t1 = event_from "t1" "10.0.0.7" "ssh" end

abbrev second_of_t1 : Event
second_of_t1 = event_from "t1" "10.0.0.7" "nginx" end

t1-NoColon : NoColon "t1"
t1-NoColon = (λ h. omega arith, (λ h. omega arith, tt))

key_of-injective_example :
    (first_of_t1.tenant_id ≡ second_of_t1.tenant_id)
    × (first_of_t1.ip_address ≡ second_of_t1.ip_address)
key_of-injective_example = key_of-injective first_of_t1 second_of_t1 t1-NoColon t1-NoColon refl
