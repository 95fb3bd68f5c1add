-- ===== src/Dashboard/Views/Drawer.antt =====
-- The investigation drawer of frontend/src/App.jsx (`selectedAlert`).
use multi_tenant_siem.Base.{String, Option, none, some, [], ◌∷◌, if◌then◌else◌, concat}
use multi_tenant_siem.Js.{Value, truthy, member, text_of}
use multi_tenant_siem.Dashboard.State.{Dashboard}
use multi_tenant_siem.Dashboard.Session.{Click, close_drawer, remediate}
use multi_tenant_siem.Dashboard.Views.Locale.{Locale}
use multi_tenant_siem.Dashboard.Views.Alerts.{severity_colors, or_grey, is_brute_force}

pub record Drawer : Type 0 where
  pub severity_class : String
  pub severity : Value
  pub event_id : String
  pub title : String
  pub message : Value
  pub source_ip : Value
  pub tenant_id : Value
  pub ingested_at : String
  pub correlation : String
  pub advice : String
  pub raw : Value
  pub on_backdrop : Click
  pub on_close : Click
  pub on_block : Click
  pub on_dismiss : Click

-- `none` where no alert is selected. `raw` is printed by `JSON.stringify`.
unfoldable pub drawer : Locale → Dashboard → Option Drawer
unfolding severity_colors is_brute_force text_of
drawer l d =
    let alert = d.selected_alert in
    if truthy alert
    then some (record {
      severity_class = or_grey (severity_colors (member "severity" alert));
      severity = member "severity" alert;
      event_id = concat ("Event ID: #" ∷ text_of (member "id" alert) ∷ []);
      title =
          if is_brute_force alert
          then "Automated SSH Auth Brute Force Attack"
          else "Sensitive Endpoint Directory Scanning";
      message = member "message" alert;
      source_ip = member "source_ip" alert;
      tenant_id = member "tenant_id" alert;
      ingested_at = l.date_time_text (member "created_at" alert);
      correlation =
          if is_brute_force alert then "Auth failure (SSH)" else "HTTP 404/401 Unauthorized";
      advice = concat (
          "Nullify the current route for "
          ∷ text_of (member "source_ip" alert)
          ∷ " via router ACL."
          ∷ []);
      raw = alert;
      on_backdrop = close_drawer;
      on_close = close_drawer;
      on_block = remediate alert "BLOCK_IP";
      on_dismiss = remediate alert "DISMISS";
    })
    else none
