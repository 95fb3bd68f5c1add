-- ===== src/Dashboard/State.antt =====
-- The state of the component `App` (the `React.useState` calls of frontend/src/App.jsx), and what
-- the browser supplies to a handler. A setter writes its field; a functional update `set(f)`
-- applies `f`. A handler's updates are applied in the order in which it queues them.
use multi_tenant_siem.Base.{ℕ, String, Bool, false, Option, none, List, []}
use multi_tenant_siem.Js.{Value, null, num, arr, nil, obj, end, field}

pub data Tab : Type 0 where
  overview threat_alerts analytics threat_intelligence infrastructure settings : Tab

-- `{ message, type }`
pub record Toast : Type 0 where
  pub message : String
  pub type : String

-- `{ name, value }`, a slice of the status code chart
pub record StatusSlice : Type 0 where
  pub name : String
  pub value : Value

-- A nullable value that is used as an object is `Value.null`; the toast is an `Option`. `timers`
-- holds the times at which a pending `setTimeout` of `triggerToast` is due.
pub record Dashboard : Type 0 where
  pub active_tab : Tab
  pub alerts : List Value
  pub connected : Bool
  pub attackers : Value
  pub traffic_analytics : Value
  pub status_code_analytics : List StatusSlice
  pub top_paths : List Value
  pub loading : Bool
  pub selected_alert : Value
  pub selected_attacker_ip : Value
  pub active_tenant : String
  pub api_key : String
  pub brute_force_threshold : ℕ
  pub slack_webhook : String
  pub retention_days : ℕ
  pub toast : Option Toast
  pub timers : List ℕ
  pub console_logs : List String
  pub filter_severity : String
  pub filter_type : String
  pub search_ip : String

-- `{ total_requests: 0, error_requests: 0, unique_ips: 0 }`
abbrev pub no_traffic : Value
no_traffic = obj (
    field "total_requests" (num 0)
      (field "error_requests" (num 0) (field "unique_ips" (num 0) end)))

abbrev pub init : Dashboard
init = record {
  active_tab = overview;
  alerts = [];
  connected = false;
  attackers = arr nil;
  traffic_analytics = no_traffic;
  status_code_analytics = [];
  top_paths = [];
  loading = false;
  selected_alert = null;
  selected_attacker_ip = null;
  active_tenant = "tenant1";
  api_key = "tenant1-secret-key";
  brute_force_threshold = 5;
  slack_webhook = "https://hooks.slack.com/services/...";
  retention_days = 30;
  toast = none;
  timers = [];
  console_logs = [];
  filter_severity = "ALL";
  filter_type = "ALL";
  search_ip = "";
}

-- What the browser supplies while a handler runs: the clock in milliseconds, its reading as
-- `toLocaleTimeString` prints it, the text of a TypeError, and whether `navigator.clipboard` is there (it
-- is not on a page without TLS).
pub record Browser : Type 0 where
  pub ms : ℕ
  pub time_text : String
  pub type_error : String
  pub has_clipboard : Bool
