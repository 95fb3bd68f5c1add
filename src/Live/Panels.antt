-- ===== src/Live/Panels.antt =====
-- The panels of frontend/src/App.jsx, if the data comes from the analytics of ingestion-service.
use multi_tenant_siem.Base.{
  take, includes, ℕ, String, ◌≡◌, refl, ap, ◌⊎◌, inl, inr, true, false, Option, none, some, List,
  [], ◌∷◌, str_eq, Bool-cases, All, map,
}
use multi_tenant_siem.Js.{Value, str, arr, nil, or_else, as_array, strict_eq}
use multi_tenant_siem.Dashboard.State.{Dashboard}
use multi_tenant_siem.Dashboard.Filters.{includes_of}
use multi_tenant_siem.Dashboard.Views.Locale.{Locale, includes_any}
use multi_tenant_siem.Dashboard.Views.Paths.{
  is_pink, path_bars, bar_colour, is_high_risk, path_row, path_table,
}
use multi_tenant_siem.Dashboard.Views.Attackers.{
  LeaderRow, SourceRow, leader_row, leaderboard, source_row, attacker_sources, find_attacker,
  dossier_of, Panel, active_attacker, dossier_panel, Dossier, dossier, placeholder, details_panel,
}
use multi_tenant_siem.Dashboard.Views.Cards.{overview_stats, top_metrics}
use multi_tenant_siem.Http.Analytics.{Attacker}
use multi_tenant_siem.Http.Analytics.Endpoints.{attacker_json}
use multi_tenant_siem.Http.Alerts.Honest.{elements-array}
use multi_tenant_siem.Live.Data.Keeps.{IsClick}
use multi_tenant_siem.Live.Data.{IsTraffic, IsTopPath, IsAttackers, IsAddress, or_else-IsAttackers}
use multi_tenant_siem.Live.Rendered.{map_or_none-All, IsSome, map_or_none-IsSome, All-map, All-take}

pub overview_stats-IsSome :
    (percent : Value → Value → String) (l : Locale) (d : Dashboard)
    → IsTraffic d.traffic_analytics
    → IsSome (overview_stats percent l d)
unfolding overview_stats
overview_stats-IsSome percent l d (t, e) = rw e (_, refl)

pub top_metrics-IsSome :
    (l : Locale) (d : Dashboard) → IsTraffic d.traffic_analytics → IsSome (top_metrics l d)
unfolding top_metrics
top_metrics-IsSome l d (t, e) = rw e (_, refl)

-- Every text has an answer to `includes`.
includes_any-IsSome : (ts : List String) (path : String) → IsSome (includes_any ts (str path))
unfolding includes_any includes_of
includes_any-IsSome [] path = (false, refl)
includes_any-IsSome (t ∷ ts) path = elim (Bool-cases (includes path t)) [
  | inl found ↦ (true, rw (found, includes_any) refl)
  | inr other ↦ let (found, e) = includes_any-IsSome ts path in (found, rw (other, includes_any) e)
]

is_pink-IsSome :
    (v : Value)
    → IsTopPath v
    → IsSome (elim (is_pink v) [ none ↦ none | some pink ↦ some (bar_colour pink) ])
unfolding is_pink
is_pink-IsSome v (p, e) =
    let (pink, f) = includes_any-IsSome (".env" ∷ "admin" ∷ []) p.path in
    (bar_colour pink, rw e (rw f refl))

path_row-IsSome : (l : Locale) (v : Value) → IsTopPath v → IsSome (path_row l v)
unfolding path_row is_high_risk
path_row-IsSome l v (p, e) =
    let (high, f) = includes_any-IsSome (".env" ∷ "admin" ∷ "passwd" ∷ []) p.path in
    rw e (rw (f, path_row) (_, refl))

pub path_bars-IsSome : (d : Dashboard) → All IsTopPath d.top_paths → IsSome (path_bars d)
unfolding path_bars
path_bars-IsSome d h =
    map_or_none-IsSome _ (take 6 d.top_paths)
      (All-map IsTopPath _ is_pink-IsSome (take 6 d.top_paths) (All-take IsTopPath 6 d.top_paths h))

pub path_table-IsSome :
    (l : Locale) (d : Dashboard) → All IsTopPath d.top_paths → IsSome (path_table l d)
unfolding path_table
path_table-IsSome l d h =
    map_or_none-IsSome (path_row l) d.top_paths
      (All-map IsTopPath (λ v. IsSome (path_row l v)) (path_row-IsSome l) d.top_paths h)

-- The elements of the list of attackers.
abbrev IsRow : (ℕ → String) → Value → Type 0
IsRow time_text v = (a : Attacker) × (v ≡ attacker_json time_text a)

module _ (time_text : ℕ → String) where
  rows-IsRow : (rows : List Attacker) → All (IsRow time_text) (map (attacker_json time_text) rows)
  rows-IsRow [] = tt
  rows-IsRow (a ∷ rows) = ((a, refl), rows-IsRow rows)

  -- The state of the attackers is an array of them.
  as_array_of :
      (v : Value)
      → IsAttackers time_text v
      → (vs : List Value) × (as_array v ≡ some vs) × All (IsRow time_text) vs
  as_array_of v (rows, e) = (
    map (attacker_json time_text) rows,
    rw e (ap some (elements-array (map (attacker_json time_text) rows))),
    rows-IsRow rows,
  )

  leader_row-IsClick :
      (l : Locale) (v : Value)
      → IsRow time_text v
      → (row : LeaderRow) × (leader_row l v ≡ some row) × IsClick row.action
  unfolding leader_row
  leader_row-IsClick l v (a, e) = rw e (_, refl, inr (a.ip, refl))

  pub leaderboard-IsClick :
      (l : Locale) (d : Dashboard)
      → IsAttackers time_text d.attackers
      → (rows : List LeaderRow) × (leaderboard l d ≡ some rows)
        × All (λ (row : LeaderRow). IsClick row.action) rows
  unfolding leaderboard
  leaderboard-IsClick l d h =
      let (vs, e, p) = as_array_of d.attackers h in
      rw (e, leaderboard)
        (map_or_none-All (λ (row : LeaderRow). IsClick row.action) (leader_row l) (take 4 vs)
          (All-map (IsRow time_text) _ (leader_row-IsClick l) (take 4 vs)
            (All-take (IsRow time_text) 4 vs p)))

  source_row-IsClick :
      (l : Locale) (selected v : Value)
      → IsRow time_text v
      → (row : SourceRow) × (source_row l selected v ≡ some row) × IsClick row.action
  unfolding source_row
  source_row-IsClick l selected v (a, e) = rw e (_, refl, inr (a.ip, refl))

  pub attacker_sources-IsClick :
      (l : Locale) (d : Dashboard)
      → IsAttackers time_text d.attackers
      → (rows : List SourceRow) × (attacker_sources l d ≡ some rows)
        × All (λ (row : SourceRow). IsClick row.action) rows
  unfolding attacker_sources
  attacker_sources-IsClick l d h =
      let (vs, e, p) = as_array_of d.attackers h in
      let selected = d.selected_attacker_ip in
      rw (e, attacker_sources)
        (map_or_none-All (λ (row : SourceRow). IsClick row.action) (source_row l selected) vs
          (All-map (IsRow time_text) _ (source_row-IsClick l selected) vs p))

  -- Who is found is one of the rows.
  abbrev pub IsFound : Option Value → Type 0
  IsFound none = Unit
  IsFound (some v) = IsRow time_text v

  find_attacker-IsSome :
      (selected : Value) (vs : List Value)
      → All (IsRow time_text) vs
      → (found : Option Value) × (find_attacker selected vs ≡ some found) × IsFound found
  unfolding find_attacker
  find_attacker-IsSome selected [] p = (none, refl, tt)
  find_attacker-IsSome selected (v ∷ vs) ((a, e), p) =
      elim (Bool-cases (strict_eq (str a.ip) selected)) [
        | inl this ↦ (
          some (attacker_json time_text a),
          rw (e, find_attacker) (rw this (ap (λ x. some (some x)) e)),
          (a, refl),
        )
        | inr other ↦
            let (found, f, q) = find_attacker-IsSome selected vs p in
            (found, rw (e, find_attacker) (rw (other, find_attacker) f), q)
      ]

  pub active_attacker-IsSome :
      (d : Dashboard)
      → IsAttackers time_text d.attackers
      → (found : Option Value) × (active_attacker d ≡ some found) × IsFound found
  unfolding active_attacker
  active_attacker-IsSome d h =
      let (vs, e, p) =
        as_array_of (or_else d.attackers (arr nil)) (or_else-IsAttackers time_text _ _ h) in
      let (found, f, q) = find_attacker-IsSome d.selected_attacker_ip vs p in
      (found, rw (e, active_attacker) f, q)

  module _ (l : Locale) (dated : (n : ℕ) → IsSome (l.iso_text (str (time_text n)))) where
    dossier_of-IsSome : (ip : String) (v : Value) → IsRow time_text v → IsSome (dossier_of l ip v)
    unfolding dossier_of
    dossier_of-IsSome ip v (a, e) =
        let (text, f) = dated a.last_seen in rw e (rw (f, dossier_of) (_, refl))

    -- A panel that nothing was thrown for.
    abbrev pub IsDrawn : Panel → Type 0
    IsDrawn panel = (panel ≡ placeholder) ⊎ ((x : Dossier) × (panel ≡ dossier x))

    details_panel-IsDrawn :
        (selected : Value) (found : Option Value)
        → IsAddress selected
        → IsFound found
        → IsDrawn (details_panel l selected (some found))
    details_panel-IsDrawn selected none address p = inl refl
    details_panel-IsDrawn selected (some v) (inl e) q = rw e (inl refl)
    details_panel-IsDrawn selected (some v) (inr (ip, e)) (a, f) =
        elim (Bool-cases (str_eq ip "")) [
          | inl empty ↦ rw (e, f) (rw empty (inl refl))
          | inr there ↦
              let (x, g) = dossier_of-IsSome ip (attacker_json time_text a) (a, refl) in
              rw (e, f) (rw there (rw g (inr (x, refl))))
        ]

    pub dossier_panel-IsDrawn :
        (d : Dashboard)
        → IsAttackers time_text d.attackers
        → IsAddress d.selected_attacker_ip
        → IsDrawn (dossier_panel l d)
    unfolding dossier_panel
    dossier_panel-IsDrawn d h address =
        let (found, e, q) = active_attacker-IsSome d h in
        rw (e, dossier_panel) (details_panel-IsDrawn d.selected_attacker_ip found address q)
