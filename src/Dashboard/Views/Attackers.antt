-- ===== src/Dashboard/Views/Attackers.antt =====
-- The leaderboard, the list of attackers and the dossier of frontend/src/App.jsx.
use Prim.Native.Char.{code}
use multi_tenant_siem.Base.{
  ℕ, zero, suc, String, ◌≡◌, refl, Bool, false, ◌&&◌, Option, none, some, List, [], ◌∷◌, leb, ◌==◌,
  if◌then◌else◌, take, concat,
}
use multi_tenant_siem.Js.{
  Value, num, str, get, member, truthy, as_array, or_else, arr, nil, text_of, strict_eq, obj, field,
  end,
}
use multi_tenant_siem.Dashboard.State.{Dashboard}
use multi_tenant_siem.Dashboard.Session.{Click, open_attacker, select_attacker, remediate}
use multi_tenant_siem.Dashboard.Views.Locale.{Locale, map_or_none}

-- A row of the "Risk Leaderboard".
pub record LeaderRow : Type 0 where
  pub ip : Value
  pub seen : String
  pub events : String
  pub risk : String
  pub action : Click

unfoldable pub leader_row : Locale → Value → Option LeaderRow
unfolding text_of
leader_row l attacker = elim (get "ip" attacker) [
  | none ↦ none
  | some ip ↦ some (record {
    ip = ip;
    seen = concat ("SEEN: " ∷ l.time_text (member "last_seen" attacker) ∷ []);
    events = concat (text_of (member "attack_count" attacker) ∷ " events" ∷ []);
    risk = concat (text_of (member "risk_score" attacker) ∷ " RISK" ∷ []);
    action = open_attacker ip;
  })
]

-- The first four attackers; a state that is no array has no `slice`.
unfoldable pub leaderboard : Locale → Dashboard → Option (List LeaderRow)
unfolding leader_row map_or_none
leaderboard l d = elim (as_array d.attackers) [
  | none ↦ none
  | some vs ↦ map_or_none (leader_row l) (take 4 vs)
]

-- `risk_score >= 85`, for a number
unfoldable pub is_severe : Value → Bool
is_severe (num n) = leb 85 n
is_severe _ = false

-- A row of the "Attacker Sources".
pub record SourceRow : Type 0 where
  pub ip : Value
  pub is_selected : Bool
  pub seen : String
  pub is_severe : Bool
  pub risk : String
  pub action : Click

unfoldable pub source_row : Locale → Value → Value → Option SourceRow
unfolding is_severe strict_eq text_of
source_row l selected attacker = elim (get "ip" attacker) [
  | none ↦ none
  | some ip ↦ some (record {
    ip = ip;
    is_selected = strict_eq selected ip;
    seen = concat ("Seen: " ∷ l.time_text (member "last_seen" attacker) ∷ []);
    is_severe = is_severe (member "risk_score" attacker);
    risk = concat (text_of (member "risk_score" attacker) ∷ " Risk" ∷ []);
    action = select_attacker ip;
  })
]

unfoldable pub attacker_sources : Locale → Dashboard → Option (List SourceRow)
unfolding source_row map_or_none
attacker_sources l d = elim (as_array d.attackers) [
  | none ↦ none
  | some vs ↦ map_or_none (source_row l d.selected_attacker_ip) vs
]

-- `attackers.find(a => a.ip === selectedAttackerIP)`: `none` is a TypeError at a `null` element
unfoldable pub find_attacker : Value → List Value → Option (Option Value)
unfolding strict_eq
find_attacker selected [] = some none
find_attacker selected (a ∷ rest) = elim (get "ip" a) [
  | none ↦ none
  | some ip ↦ if strict_eq ip selected then some (some a) else find_attacker selected rest
]

-- `activeAttackerDetails`, which is computed at every render
unfoldable pub active_attacker : Dashboard → Option (Option Value)
unfolding find_attacker
active_attacker d = elim (as_array (or_else d.attackers (arr nil))) [
  | none ↦ none
  | some vs ↦ find_attacker d.selected_attacker_ip vs
]

-- `s.split('.').slice(0, 3).join('.')`: the text before the `n`-th dot
unfoldable pub before_dot : ℕ → String → String
before_dot n String.[] = ""
before_dot zero (String.◌∷◌ c s) = if code c == b'.' then "" else String.◌∷◌ c (before_dot zero s)
before_dot (suc n) (String.◌∷◌ c s) =
    String.◌∷◌ c (before_dot (if code c == b'.' then n else suc n) s)

unfoldable pub network_range : String → String
unfolding before_dot
network_range ip = concat (before_dot 2 ip ∷ ".0/24" ∷ [])

-- The dossier of the selected attacker.
pub record Dossier : Type 0 where
  pub heading : String
  pub risk_factor : String
  pub range : String
  pub detections : String
  pub signature : String
  pub whois : String
  pub action : Click

unfoldable pub dossier_of : Locale → String → Value → Option Dossier
unfolding network_range text_of
dossier_of l ip details = elim (l.iso_text (member "last_seen" details)) [
  | none ↦ none
  | some last_seen ↦
      let count = text_of (member "attack_count" details) in
      some (record {
        heading = ip;
        risk_factor = concat (text_of (member "risk_score" details) ∷ "% CRITICAL" ∷ []);
        range = network_range ip;
        detections = concat (count ∷ " correlated logs" ∷ []);
        signature = concat (
            "Continuous brute-force log activities mapped on host endpoints. Attack count: " ∷ count
            ∷ "." ∷ []);
        whois = concat (
            "% WHOIS lookup for "
            ∷ ip
            ∷ "\n% Data parsed from local postgres DB logs\n\nIP Address:      "
            ∷ ip
            ∷ "\nNetwork Range:   "
            ∷ network_range ip
            ∷ "\nLast Activity:   "
            ∷ last_seen
            ∷ "\nAlert count:     "
            ∷ count
            ∷ "\nStatus:          Monitored on active firewall rules"
            ∷ []);
        action = remediate (obj (field "source_ip" (str ip) end)) "BLOCK_IP";
      })
]

-- What the panel on the right shows.
pub data Panel : Type 0 where
  placeholder : Panel
  dossier : Dossier → Panel
  failed : Panel

abbrev pub panel_of : Option Dossier → Panel
panel_of none = failed
panel_of (some x) = dossier x

-- `!selectedAttackerIP || !activeAttackerDetails ? … : …`; an address that is no text has no
-- `split`, and a state that is no array has no `find`.
abbrev pub details_panel : Locale → Value → Option (Option Value) → Panel
details_panel l selected none = failed
details_panel l selected (some none) = placeholder
details_panel l (str ip) (some (some details)) =
    if truthy (str ip) && truthy details then panel_of (dossier_of l ip details) else placeholder
details_panel l selected (some (some details)) =
    if truthy selected && truthy details then failed else placeholder

unfoldable pub dossier_panel : Locale → Dashboard → Panel
unfolding active_attacker dossier_of
dossier_panel l d = details_panel l d.selected_attacker_ip (active_attacker d)

range_test : network_range "192.168.1.150" ≡ "192.168.1.0/24"
unfolding network_range
range_test = refl
