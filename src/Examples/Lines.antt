-- ===== src/Examples/Lines.antt =====
-- Lines that log-agent reads, and what becomes of them.
use multi_tenant_siem.Base.{
  ◌++◌, ℕ, String, ◌≡◌, refl, Bool, true, false, ◌+◌, ◌&&◌, &&-split, none, some, [], ◌∷◌, arith,
  decimal,
}
use multi_tenant_siem.Js.{str, field, end, text_of}
use multi_tenant_siem.Detection.Model.{Event}
use multi_tenant_siem.Dashboard.State.{init}
use multi_tenant_siem.Dashboard.Counters.{fetch_traffic_analytics}
use multi_tenant_siem.Dashboard.Views.Locale.{Locale}
use multi_tenant_siem.Dashboard.Views.Cards.{overview_stats}
use multi_tenant_siem.Http.Analytics.Endpoints.{traffic_endpoint}
use multi_tenant_siem.Agent.Regex.{Class, any_char, is_digit, is_word}
use multi_tenant_siem.Agent.Regex.Laws.{AllIn, is_not}
use multi_tenant_siem.Agent.Auth.{parse_auth_log}
use multi_tenant_siem.Agent.Nginx.{parse_nginx_log, access_event}
use multi_tenant_siem.Agent.Nginx.RoundTrip.{
  Access, access_line, IsPlain, parse_nginx_log-access_line,
}
use multi_tenant_siem.Agent.Send.{Arrival, monitor_lines}
use multi_tenant_siem.Agent.Send.Twice.{
  access, auth, parser_of, each_twice, monitor_lines-each_twice, all_up,
}
use multi_tenant_siem.Service.Worker.{Moment}
use multi_tenant_siem.Agent.Traffic.{IsFromAgent}
use multi_tenant_siem.Examples.Sorting.{sorted}
use multi_tenant_siem.Agent.Traffic.Shown.{cards_of_agent}

abbrev scan : Access
scan = record {
  ip = "10.0.0.1";
  time = "10/Oct/2000:13:55:36 -0700";
  method = "GET";
  path = "/.env";
  version = "/1.1";
  status = "404";
  more = " 153";
}

abbrev is_all : Class → String → Bool
is_all p String.[] = true
is_all p (String.◌∷◌ c s) = p c && is_all p s

AllIn-of_is_all : (p : Class) (s : String) → is_all p s ≡ true → AllIn p s
AllIn-of_is_all p String.[] h = tt
AllIn-of_is_all p (String.◌∷◌ c s) h =
    let (first, rest) = &&-split (p c) (is_all p s) h in (first, AllIn-of_is_all p s rest)

scan-IsPlain : IsPlain scan
scan-IsPlain = record {
  ip_chars = tt;
  ip_line = AllIn-of_is_all any_char "10.0.0.1" refl;
  ip_space = AllIn-of_is_all (is_not b' ') "10.0.0.1" refl;
  time_line = AllIn-of_is_all any_char "10/Oct/2000:13:55:36 -0700" refl;
  time_bracket = AllIn-of_is_all (is_not b']') "10/Oct/2000:13:55:36 -0700" refl;
  method_chars = tt;
  method_word = AllIn-of_is_all is_word "GET" refl;
  path_line = AllIn-of_is_all any_char "/.env" refl;
  path_space = AllIn-of_is_all (is_not b' ') "/.env" refl;
  version_line = AllIn-of_is_all any_char "/1.1" refl;
  status_chars = tt;
  status_digits = AllIn-of_is_all is_digit "404" refl;
  more_stops = refl;
  more_quote = AllIn-of_is_all (is_not b'"') " 153" refl;
}

parse_nginx_log-access_line_example :
    parse_nginx_log 7 "10.0.0.1 - - [10/Oct/2000:13:55:36 -0700] \"GET /.env HTTP/1.1\" 404 153"
    ≡ some (access_event 7 "10.0.0.1" "GET" "/.env" 404)
parse_nginx_log-access_line_example =
    parse_nginx_log-access_line 7 scan 404 scan-IsPlain (unfold decimal in refl) (omega arith)

-- Failed logins, read while both networks work.
abbrev login_line : String
login_line = "sshd[88]: Failed password for invalid user admin from 10.0.0.7 port 22 ssh2"

abbrev pub read_at : ℕ → Arrival
read_at time = record {
  network = all_up;
  time = time;
  server_time = time;
  taken_between = 0;
  taken_after = 1;
  line = login_line;
}

abbrev pub login : ℕ → Event
login time = record {
  tenant_id = "tenant_1";
  source = "ssh";
  event_type = "auth_failure";
  timestamp = time;
  severity = "HIGH";
  ip_address = "10.0.0.7";
  hostname = "";
  message = "Failed SSH login";
  payload = field "username" (str "admin") end;
}

pub parse_login : (time : ℕ) → parse_auth_log time login_line ≡ some (login time)
unfolding parse_auth_log
parse_login time = refl

-- The clock of the detector goes on by one at each event, and the database numbers the alerts from 1.
abbrev pub steady : ℕ → Moment
steady n = record {
  brute_force_at = n + 5;
  brute_force_alert_at = n + 5;
  web_scan_at = n + 5;
  web_scan_alert_at = n + 5;
  brute_force_row = some (1, 20);
  web_scan_row = some (2, 20);
}

-- A table of the agent's events.
abbrev pub scanned : Event
scanned = access_event 7 "10.0.0.1" "GET" "/.env" 404

scanned-IsFromAgent : IsFromAgent scanned
scanned-IsFromAgent = (
  access,
  7,
  access_line scan,
  parse_nginx_log-access_line 7 scan 404 scan-IsPlain (unfold decimal in refl) (omega arith),
)

abbrev pub plain : Locale
plain = record {
  time_text = text_of;
  date_time_text = text_of;
  iso_text = λ v. some (text_of v);
  number_text = text_of;
}

cards_of_agent_example :
    overview_stats
      (λ total errors. "100")
      plain
      (fetch_traffic_analytics
        (traffic_endpoint sorted "<" false false false (scanned ∷ scanned ∷ []))
        init)
    ≡ some (
        record {
          title = "Ingested Logs (HTTP)";
          value = "2";
          glow = "shadow-cyan-500/5";
          trend = none;
        }
        ∷ record {
          title = "Warning/Error Logs";
          value = "0";
          glow = "shadow-pink-500/5";
          trend = none;
        }
        ∷ record {
          title = "Unique Source IPs";
          value = "0";
          glow = "shadow-blue-500/5";
          trend = none;
        }
        ∷ record {
          title = "Request Success Rate";
          value = "100%";
          glow = "shadow-emerald-500/5";
          trend = none;
        }
        ∷ [])
unfolding text_of decimal
cards_of_agent_example =
    cards_of_agent (λ total errors. "100") plain sorted "<" (scanned ∷ scanned ∷ []) init
      (scanned-IsFromAgent, (scanned-IsFromAgent, tt))

monitor_lines-each_twice_example :
    monitor_lines (parser_of auth) (read_at 1 ∷ read_at 2 ∷ []) (record { queue = []; topic = [] })
    ≡ record { queue = [] ++ each_twice auth (read_at 1 ∷ read_at 2 ∷ []); topic = [] }
monitor_lines-each_twice_example =
    monitor_lines-each_twice auth (read_at 1 ∷ read_at 2 ∷ []) []
      (
        (omega arith, omega arith, refl, omega arith),
        ((omega arith, omega arith, refl, omega arith), tt),
      )
      (omega arith)
