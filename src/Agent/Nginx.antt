-- ===== src/Agent/Nginx.antt =====
-- log-agent/parser/nginx_parser.go. `now` is the time that the call reads.
pub mod RoundTrip
pub mod Decimal
use Prim.Native.Char.{Char, code}
use Prim.Native.String
use multi_tenant_siem.Base.{
  ℕ, zero, suc, ◌+◌, ◌-◌, ◌≤◌, ◌<◌, String, ◌≡◌, refl, sym, ap, ◌∙◌, ◌≢◌, ◌↔◌, ◌⊎◌, inl, inr, Bool,
  true, false, not, ◌&&◌, ◌||◌, Option, none, some, List, [], ◌∷◌, ◌++◌, arith, ltb, leb, ◌==◌,
  str_eq, eq_iff, eq_refl, if◌then◌else◌, Bool-cases, Option-cases, length, any, keep, All, Memᴰ,
  ◌*◌, ◌^◌,
}
use multi_tenant_siem.Js.{str, num, field, end}
use multi_tenant_siem.Detection.Model.{Event}
use multi_tenant_siem.Agent.Regex.{
  Class, any_char, is_digit, is_word, Piece, text, greedy, lazy, greedy_one, lazy_one, match_here,
}

-- `nginxRegex`. `.*` is no group of the source; its text is not read.
abbrev pub nginx_pattern : List Piece
nginx_pattern =
    lazy_one any_char
    ∷ text " - - ["
    ∷ lazy any_char
    ∷ text "] \""
    ∷ greedy_one is_word
    ∷ text " "
    ∷ lazy any_char
    ∷ text " HTTP"
    ∷ greedy any_char
    ∷ text "\" "
    ∷ greedy_one is_digit
    ∷ []

-- The value of a text of digits that stands behind digits of the value `n`.
unfoldable pub digits_value : ℕ → String → ℕ
digits_value n String.[] = n
digits_value n (String.◌∷◌ c s) = digits_value (n * 10 + (code c - b'0')) s

-- `strconv.Atoi` on a text of digits: an error if the value is no 64-bit integer.
unfoldable pub atoi : String → Option ℕ
unfolding digits_value
atoi s = let n = digits_value 0 s in if ltb n (2 ^ 63) then some n else none

-- The severity of a status code.
unfoldable pub severity_of : ℕ → String
severity_of status = if leb 400 status then "MEDIUM" else "LOW"

abbrev pub access_event : ℕ → String → String → String → ℕ → Event
access_event now ip method path status = record {
  tenant_id = "tenant_1";
  source = "nginx";
  event_type = "http_access";
  timestamp = now;
  severity = severity_of status;
  ip_address = ip;
  hostname = "";
  message = "HTTP Request";
  payload =
      field "method" (str method) (field "path" (str path) (field "status_code" (num status) end));
}

-- The event of the groups of a match.
unfoldable pub event_of_groups : ℕ → Option (List String) → Option Event
unfolding atoi severity_of
event_of_groups now (some (ip ∷ time ∷ method ∷ path ∷ version ∷ status ∷ [])) =
    elim (atoi status) [ none ↦ none | some n ↦ some (access_event now ip method path n) ]
event_of_groups now _ = none

unfoldable pub parse_nginx_log : ℕ → String → Option Event
unfolding match_here event_of_groups
parse_nginx_log now line = event_of_groups now (match_here nginx_pattern line)
