-- ===== src/Agent/Nginx/RoundTrip.antt =====
-- Lines of an access log and the events that log-agent/parser/nginx_parser.go makes of them.
use Prim.Native.Char.{Char}
use Prim.Native.String.{char_at}
use package.text.Mathlib.TextLemmas.{nil-append, cons-append}
use Prim.Native.String
use multi_tenant_siem.Agent.Nginx.Decimal.{atoi-decimal}
use multi_tenant_siem.Base.{
  ◌^◌, decimal, ℕ, ◌<◌, String, ◌≡◌, refl, sym, ap, ◌∙◌, true, some, List, [], ◌∷◌, arith,
}
use multi_tenant_siem.Agent.Regex.{
  any_char, is_digit, is_word, Piece, text, greedy, lazy, greedy_one, match_here,
}
use multi_tenant_siem.Agent.Regex.Laws.{
  AllIn-append, AllIn-weaken, HasChars, AllIn, is_not, Stops, Needs-text, match-text, match-lazy,
  match-lazy_one, match-greedy_one, match-greedy,
}
use multi_tenant_siem.Agent.Nginx.{
  nginx_pattern, atoi, access_event, event_of_groups, parse_nginx_log,
}

-- A request as a line of the access log reports it.
pub record Access : Type 0 where
  pub ip : String
  pub time : String
  pub method : String
  pub path : String
  pub version : String
  pub status : String
  pub more : String

infixr 5 ◌+++◌
abbrev ◌+++◌ : String → String → String
s +++ t = String.◌++◌ s t

-- The line.
abbrev pub access_line : Access → String
access_line a =
    a.ip
    +++ (" - - ["
        +++ (a.time
            +++ ("] \""
                +++ (a.method
                    +++ (" "
                        +++ (a.path
                            +++ (" HTTP"
                                +++ (a.version +++ ("\" " +++ (a.status +++ a.more))))))))))

-- What makes the fields of a line recognizable: the address and the path have no space, the time has
-- no bracket, the method is a word, the status a number, and no quotation mark follows.
pub record IsPlain (a : Access) : Type 0 where
  pub ip_chars : HasChars a.ip
  pub ip_line : AllIn any_char a.ip
  pub ip_space : AllIn (is_not b' ') a.ip
  pub time_line : AllIn any_char a.time
  pub time_bracket : AllIn (is_not b']') a.time
  pub method_chars : HasChars a.method
  pub method_word : AllIn is_word a.method
  pub path_line : AllIn any_char a.path
  pub path_space : AllIn (is_not b' ') a.path
  pub version_line : AllIn any_char a.version
  pub status_chars : HasChars a.status
  pub status_digits : AllIn is_digit a.status
  pub more_stops : Stops is_digit a.more
  pub more_quote : AllIn (is_not b'"') a.more

abbrev space : Char
space = char_at " " 0

abbrev quote : Char
quote = char_at "\"" 0

-- The pattern from a place on.
abbrev from_status : List Piece
from_status = greedy_one is_digit ∷ []

abbrev from_quote : List Piece
from_quote = text "\" " ∷ from_status

abbrev from_version : List Piece
from_version = greedy any_char ∷ from_quote

abbrev from_http : List Piece
from_http = text " HTTP" ∷ from_version

abbrev from_path : List Piece
from_path = text " " ∷ lazy any_char ∷ from_http

abbrev from_bracket : List Piece
from_bracket = text "] \"" ∷ greedy_one is_word ∷ from_path

quote_cons : (t : String) → ("\" " +++ t) ≡ String.◌∷◌ quote (" " +++ t)
quote_cons t = rw cons-append refl

digit_no_quote : (c : Char) → is_digit c ≡ true → is_not b'"' c ≡ true
digit_no_quote c h = ground arith

space_cons : (t : String) → (" " +++ t) ≡ String.◌∷◌ space t
space_cons t = rw cons-append (rw nil-append refl)

module _ (a : Access) (h : IsPlain a) where
  status_groups : match_here from_quote ("\" " +++ (a.status +++ a.more)) ≡ some (a.status ∷ [])
  status_groups = match-text from_status (a.status ∷ []) "\" " (a.status +++ a.more) (
      match-greedy_one [] [] is_digit a.status a.more h.status_chars h.status_digits h.more_stops
        (unfold match_here in refl))

  no_quote : AllIn (is_not b'"') (" " +++ (a.status +++ a.more))
  no_quote =
      AllIn-append (is_not b'"') " " (a.status +++ a.more) (refl, tt)
        (AllIn-append (is_not b'"') a.status a.more
          (AllIn-weaken is_digit (is_not b'"') a.status digit_no_quote h.status_digits)
          h.more_quote)

  version_groups :
      match_here from_version (a.version +++ ("\" " +++ (a.status +++ a.more)))
      ≡ some (a.version ∷ a.status ∷ [])
  version_groups =
      ap (λ t. match_here from_version (a.version +++ t)) (quote_cons (a.status +++ a.more))
      ∙ match-greedy from_quote (a.status ∷ []) any_char b'"' quote a.version
          (" " +++ (a.status +++ a.more)) h.version_line no_quote (Needs-text quote " " from_status)
          (ap (λ t. match_here from_quote t) (sym (quote_cons (a.status +++ a.more)))
            ∙ status_groups)

  path_groups :
      match_here from_path
        (" " +++ (a.path +++ (" HTTP" +++ (a.version +++ ("\" " +++ (a.status +++ a.more))))))
      ≡ some (a.path ∷ a.version ∷ a.status ∷ [])
  path_groups = match-text _ _ " " _ (
      match-lazy from_http _ any_char b' ' a.path _ h.path_line h.path_space
        (Needs-text space "HTTP" from_version) (match-text from_version _ " HTTP" _ version_groups))

  method_groups :
      match_here from_bracket (
        "] \""
        +++ (a.method
            +++ (" "
                +++ (a.path +++ (" HTTP" +++ (a.version +++ ("\" " +++ (a.status +++ a.more))))))))
      ≡ some (a.method ∷ a.path ∷ a.version ∷ a.status ∷ [])
  method_groups = match-text _ _ "] \"" _ (
      match-greedy_one from_path _ is_word a.method _ h.method_chars h.method_word
        (rw space_cons refl) path_groups)

  -- The groups of the pattern are the fields of the line.
  line_groups :
      match_here nginx_pattern (access_line a)
      ≡ some (a.ip ∷ a.time ∷ a.method ∷ a.path ∷ a.version ∷ a.status ∷ [])
  line_groups =
      match-lazy_one _ _ any_char b' ' a.ip _ h.ip_chars h.ip_line h.ip_space
        (Needs-text space "- - [" _)
        (match-text _ _ " - - [" _ (
          match-lazy from_bracket _ any_char b']' a.time _ h.time_line h.time_bracket
            (Needs-text (char_at "]" 0) " \"" _) method_groups))

-- A plain line of an access log is read back: the event has the line's address, method and path,
-- the number that was printed as its status, if that has 64 bits, and the severity that goes with
-- it, whatever the time, the HTTP version and the rest of the line are.
pub parse_nginx_log-access_line :
    (now : ℕ) (a : Access) (status : ℕ)
    → IsPlain a
    → a.status ≡ decimal status
    → status < 2 ^ 63
    → parse_nginx_log now (access_line a) ≡ some (access_event now a.ip a.method a.path status)
unfolding parse_nginx_log event_of_groups
parse_nginx_log-access_line now a status h e fits =
    ap (event_of_groups now) (line_groups a h)
    ∙ rw (ap atoi e ∙ atoi-decimal status fits, event_of_groups) refl
