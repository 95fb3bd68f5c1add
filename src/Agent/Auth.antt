-- ===== src/Agent/Auth.antt =====
-- log-agent/parser/auth_parser.go. `now` is the time that the call reads.
use Prim.Native.Char.{code}
use multi_tenant_siem.Base.{
  ℕ, String, ◌&&◌, ◌||◌, Option, none, some, List, [], ◌∷◌, leb, ◌==◌, if◌then◌else◌, includes,
}
use multi_tenant_siem.Js.{str, field, end}
use multi_tenant_siem.Detection.Model.{Event}
use multi_tenant_siem.Agent.Regex.{
  Class, is_digit, is_word, Piece, text, optional, greedy_one, search,
}

-- `[a-fA-F0-9:\.]`
abbrev pub is_address : Class
is_address c =
    is_digit c
    || (leb b'a' (code c) && leb (code c) b'f')
    || (leb b'A' (code c) && leb (code c) b'F')
    || (code c == b':')
    || (code c == b'.')

-- `ipRegex`
abbrev pub ip_pattern : List Piece
ip_pattern = text "from " ∷ greedy_one is_address ∷ []

-- `userRegex`; its optional group is not read.
abbrev pub user_pattern : List Piece
user_pattern = text "for " ∷ optional "invalid user " ∷ greedy_one is_word ∷ []

-- The last group of a match, or "unknown".
abbrev pub group_or_unknown : Option (List String) → String
group_or_unknown (some (g ∷ [])) = g
group_or_unknown _ = "unknown"

unfoldable pub parse_auth_log : ℕ → String → Option Event
unfolding search
parse_auth_log now line =
    if includes line "Failed password"
    then some (record {
      tenant_id = "tenant_1";
      source = "ssh";
      event_type = "auth_failure";
      timestamp = now;
      severity = "HIGH";
      ip_address = group_or_unknown (search ip_pattern line);
      hostname = "";
      message = "Failed SSH login";
      payload = field "username" (str (group_or_unknown (search user_pattern line))) end;
    })
    else none
