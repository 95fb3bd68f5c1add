-- ===== src/Detection/Suppressor.antt =====
-- ingestion-service/internal/detection/alert_suppressor.go
pub mod Stream
use multi_tenant_siem.Base.{
  ℕ, zero, suc, ◌+◌, ◌-◌, ◌≤◌, ◌<◌, String, ◌≡◌, refl, sym, ap, ◌∙◌, ◌≢◌, ◌↔◌, ◌⊎◌, inl, inr, Bool,
  true, false, not, ◌&&◌, ◌||◌, Option, none, some, List, [], ◌∷◌, ◌++◌, arith, ltb, leb, ◌==◌,
  str_eq, eq_iff, eq_refl, if◌then◌else◌, Bool-cases, Option-cases, length, any, keep, All, Memᴰ,
  ◌*◌, concat,
}
use multi_tenant_siem.Detection.Model.{Alert, minute}
use multi_tenant_siem.Detection.Store.{get, put}

-- `alertMap`: the `LastSeen` of each key
abbrev pub AlertMap : Type 0
AlertMap = List (String × ℕ)

abbrev pub key_of : Alert → String
key_of alert = concat (alert.tenant_id ∷ ":" ∷ alert.alert_type ∷ ":" ∷ alert.source_ip ∷ [])

-- 5 * time.Minute
abbrev pub window : ℕ
window = 5 * minute

-- Whether an alert is held back, by the time that its entry has.
unfoldable pub is_repeat : ℕ → Option ℕ → Bool
is_repeat now none = false
is_repeat now (some last_seen) = ltb (now - last_seen) window

unfoldable pub should_suppress_alert : ℕ → Alert → AlertMap → AlertMap × Bool
unfolding is_repeat get put
should_suppress_alert now alert seen =
    if is_repeat now (get (key_of alert) seen)
    then (seen, true)
    else (put (key_of alert) now seen, false)
