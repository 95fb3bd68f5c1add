-- ===== src/Dashboard/Views/Alerts.antt =====
-- The alert feed of the overview and the table of alerts of frontend/src/App.jsx.
use Prim.Native.Char.{code}
use multi_tenant_siem.Base.{
  String, Bool, Option, none, some, List, [], ◌∷◌, ◌==◌, str_eq, if◌then◌else◌, take, concat,
}
use multi_tenant_siem.Js.{Value, str, get, member, text_of, strict_eq}
use multi_tenant_siem.Dashboard.State.{Dashboard}
use multi_tenant_siem.Dashboard.Session.{Click, investigate}
use multi_tenant_siem.Dashboard.Filters.{filtered_alerts}
use multi_tenant_siem.Dashboard.Views.Locale.{Locale, map_or_none}

-- `severityColors[severity]`; `none` is `undefined`
unfoldable pub severity_colors : Value → Option String
unfolding text_of
severity_colors severity =
    let key = text_of severity in
    if str_eq key "CRITICAL"
    then some "bg-red-500/20 text-red-400 border-red-500/40 glowing-alert"
    else if str_eq key "HIGH"
    then some "bg-orange-500/20 text-orange-400 border-orange-500/40"
    else if str_eq key "MEDIUM"
    then some "bg-yellow-500/20 text-yellow-400 border-yellow-500/40"
    else if str_eq key "LOW"
    then some "bg-emerald-500/20 text-emerald-400 border-emerald-500/40"
    else none

-- The class in a template literal, where `undefined` is written out.
abbrev pub class_text : Option String → String
class_text none = "undefined"
class_text (some c) = c

abbrev pub or_grey : Option String → String
or_grey none = "bg-slate-700"
or_grey (some c) = c

-- `alert.alert_type === 'brute_force'`
unfoldable pub is_brute_force : Value → Bool
unfolding strict_eq
is_brute_force alert = strict_eq (member "alert_type" alert) (str "brute_force")

abbrev pub row_key : Value → String
row_key alert =
    concat (text_of (member "id" alert) ∷ "-" ∷ text_of (member "created_at" alert) ∷ [])

-- An entry of the "Critical Alert Feed".
pub record FeedEntry : Type 0 where
  pub key : String
  pub severity_class : String
  pub severity : Value
  pub title : String
  pub message : Value
  pub occurred_at : String
  pub action : Click

unfoldable pub feed_title : Value → String
unfolding is_brute_force
feed_title alert =
    if is_brute_force alert then "SSH Brute Force Attempt" else "Suspicious Web Directory Scan"

unfoldable pub feed_entry : Locale → Value → Option FeedEntry
unfolding severity_colors feed_title text_of
feed_entry l alert = elim (get "id" alert) [
  | none ↦ none
  | some _ ↦ some (record {
    key = row_key alert;
    severity_class = class_text (severity_colors (member "severity" alert));
    severity = member "severity" alert;
    title = feed_title alert;
    message = member "message" alert;
    occurred_at = l.time_text (member "created_at" alert);
    action = investigate alert;
  })
]

-- The feed shows the first four alerts; `some []` is the text for an empty feed.
unfoldable pub alert_feed : Locale → Dashboard → Option (List FeedEntry)
unfolding feed_entry map_or_none
alert_feed l d = map_or_none (feed_entry l) (take 4 d.alerts)

-- `s.replace('_', ' ')` replaces the first underscore.
unfoldable pub replace_underscore : String → String
replace_underscore String.[] = ""
replace_underscore (String.◌∷◌ c s) =
    if code c == b'_' then concat (" " ∷ s ∷ []) else String.◌∷◌ c (replace_underscore s)

-- A row of the table of the alerts. The icon is a lock or a globe.
pub record AlertRow : Type 0 where
  pub key : String
  pub has_lock : Bool
  pub type_text : String
  pub severity_class : String
  pub severity : Value
  pub source_ip : Value
  pub tenant_id : Value
  pub occurred_at : String
  pub action : Click

-- `alert.alert_type.replace(…)` is a TypeError unless the type is a text.
abbrev pub as_text : Value → Option String
as_text (str s) = some s
as_text _ = none

unfoldable pub alert_row : Locale → Value → Option AlertRow
unfolding severity_colors is_brute_force replace_underscore text_of
alert_row l alert = elim (as_text (member "alert_type" alert)) [
  | none ↦ none
  | some type ↦ some (record {
    key = row_key alert;
    has_lock = is_brute_force alert;
    type_text = replace_underscore type;
    severity_class = or_grey (severity_colors (member "severity" alert));
    severity = member "severity" alert;
    source_ip = member "source_ip" alert;
    tenant_id = member "tenant_id" alert;
    occurred_at = l.date_time_text (member "created_at" alert);
    action = investigate alert;
  })
]

-- The rows of the table; `some []` is the text for an empty table.
unfoldable pub alert_table : Locale → Dashboard → Option (List AlertRow)
unfolding filtered_alerts alert_row map_or_none
alert_table l d = elim (filtered_alerts d) [ none ↦ none | some vs ↦ map_or_none (alert_row l) vs ]
