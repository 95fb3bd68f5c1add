-- ===== src/Dashboard/Views/Controls.antt =====
-- The controls of frontend/src/App.jsx that show the state they set: the filters of the alerts and
-- the settings.
use multi_tenant_siem.Base.{ℕ, String, List, [], ◌∷◌, if◌then◌else◌, str_eq, map, concat, decimal}
use multi_tenant_siem.Dashboard.State.{Dashboard}
use multi_tenant_siem.Dashboard.Session.{
  Click, set_severity, set_search, set_threshold, set_webhook, set_retention, Input, switch,
}

-- A button with its class and what it does.
pub record Button (A : Type 0) : Type 0 where
  pub label : String
  pub class : String
  pub action : A

abbrev severity_button : Dashboard → String → Button Click
severity_button d sev = record {
  label = sev;
  class =
      if str_eq d.filter_severity sev
      then "bg-cyan-500/20 text-cyan-300 border-cyan-500/40"
      else "bg-transparent text-slate-400 border-transparent hover:bg-slate-800/40";
  action = set_severity sev;
}

unfoldable pub severity_buttons : Dashboard → List (Button Click)
severity_buttons d = map (severity_button d) ("ALL" ∷ "CRITICAL" ∷ "HIGH" ∷ "MEDIUM" ∷ "LOW" ∷ [])

-- A field with the value that it shows and what a change does.
pub record Field (A : Type 0) : Type 0 where
  pub value : A
  pub on_change : A → Click

unfoldable pub search_field : Dashboard → Field String
search_field d = record { value = d.search_ip; on_change = set_search }

-- `tenant` and `tenant.toUpperCase()`
abbrev tenants : List (String × String)
tenants = ("tenant1", "TENANT1") ∷ ("tenant2", "TENANT2") ∷ ("tenant3", "TENANT3") ∷ []

abbrev tenant_button : Dashboard → String × String → Button Input
tenant_button d (tenant, label) = record {
  label = label;
  class =
      if str_eq d.active_tenant tenant
      then "bg-slate-900 border-cyan-500/50 text-white shadow-lg"
      else "bg-transparent border-white/5 text-slate-400 hover:bg-slate-900/30";
  action = switch tenant;
}

unfoldable pub tenant_buttons : Dashboard → List (Button Input)
tenant_buttons d = map (tenant_button d) tenants

-- The fields of the settings with the texts beside them.
pub record Settings : Type 0 where
  pub key_text : String
  pub threshold_text : String
  pub threshold : Field ℕ
  pub webhook : Field String
  pub retention_text : String
  pub retention : Field ℕ

unfoldable pub settings_panel : Dashboard → Settings
unfolding decimal
settings_panel d = record {
  key_text = d.api_key;
  threshold_text = concat (decimal d.brute_force_threshold ∷ " attempts" ∷ []);
  threshold = record { value = d.brute_force_threshold; on_change = set_threshold };
  webhook = record { value = d.slack_webhook; on_change = set_webhook };
  retention_text = concat (decimal d.retention_days ∷ " Days" ∷ []);
  retention = record { value = d.retention_days; on_change = set_retention };
}
