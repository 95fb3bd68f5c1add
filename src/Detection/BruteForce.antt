-- ===== src/Detection/BruteForce.antt =====
-- ingestion-service/internal/detection/bruteforce.go. `now` is the time that the call reads from
-- the clock.
pub mod Stream
use multi_tenant_siem.Base.{
  ℕ, zero, suc, ◌+◌, ◌-◌, ◌≤◌, ◌<◌, String, ◌≡◌, refl, sym, ap, ◌∙◌, ◌≢◌, ◌↔◌, ◌⊎◌, inl, inr, Bool,
  true, false, not, ◌&&◌, ◌||◌, Option, none, some, List, [], ◌∷◌, ◌++◌, arith, ltb, leb, ◌==◌,
  str_eq, eq_iff, eq_refl, if◌then◌else◌, Bool-cases, Option-cases, length, any, keep, All, Memᴰ,
  concat,
}
use multi_tenant_siem.Detection.Model.{Event, Alert, minute}
use multi_tenant_siem.Detection.Store.{get, put}

pub record FailedAttempt : Type 0 where
  pub count : ℕ
  pub last_attempt : ℕ

-- `failedLogins`
abbrev pub FailedLogins : Type 0
FailedLogins = List (String × FailedAttempt)

abbrev pub key_of : Event → String
key_of event = concat (event.tenant_id ∷ ":" ∷ event.ip_address ∷ [])

-- The guards before the lock is taken.
unfoldable pub is_login_failure : Event → Bool
is_login_failure event =
    str_eq event.event_type "auth_failure"
    && not (str_eq event.ip_address "" || str_eq event.ip_address "unknown")

abbrev pub brute_force_alert : Event → Alert
brute_force_alert event = record {
  id = 0;
  tenant_id = event.tenant_id;
  alert_type = "BRUTE_FORCE";
  severity = "HIGH";
  message = "Multiple failed login attempts detected";
  source_ip = event.ip_address;
  created_at = 0;
}

-- From an entry, the new entry and whether an alert is raised.
unfoldable pub attempt : ℕ → Option FailedAttempt → FailedAttempt × Bool
attempt now none = (record { count = 1; last_attempt = now }, false)
attempt now (some entry) =
    if ltb minute (now - entry.last_attempt)
    then (record { count = 1; last_attempt = now }, false)
    else if leb 5 (entry.count + 1)
    then (record { count = 0; last_attempt = now }, true)
    else (record { count = entry.count + 1; last_attempt = now }, false)

unfoldable pub detect_brute_force : ℕ → Event → FailedLogins → FailedLogins × Option Alert
unfolding is_login_failure attempt get put
detect_brute_force now event logins =
    if is_login_failure event
    then (let (entry, raised) = attempt now (get (key_of event) logins) in
        (put (key_of event) entry logins, if raised then some (brute_force_alert event) else none))
    else (logins, none)
