-- ===== src/Live/Rendered.antt =====
-- The alerts of the server are drawn without a TypeError: `filteredAlerts`, the feed and the table of
-- frontend/src/App.jsx.
use multi_tenant_siem.Base.{
  take, lower_case, ℕ, zero, suc, String, ◌≡◌, refl, inl, inr, Bool, true, false, ◌&&◌, Option,
  some, List, [], ◌∷◌, str_eq, Bool-cases, All, includes,
}
use multi_tenant_siem.Js.{Value, str, truthy, member, or_else}
use multi_tenant_siem.Detection.Model.{Alert}
use multi_tenant_siem.Service.Json.{alert_json}
use multi_tenant_siem.Dashboard.State.{Dashboard, Browser}
use multi_tenant_siem.Dashboard.Filters.{
  filtered_alerts, filter_or_throw, is_shown, matches_search, message_matches, includes_of,
  lower_of, matches_choice,
}
use multi_tenant_siem.Dashboard.Views.Locale.{Locale, map_or_none}
use multi_tenant_siem.Dashboard.Views.Alerts.{feed_entry, alert_feed, alert_row, alert_table}
use multi_tenant_siem.Dashboard.Session.{Input, mount}
use multi_tenant_siem.Dashboard.Session.Tenants.{play}
use multi_tenant_siem.Live.Typed.{IsAlert, AreOurs, play-IsAlert}

-- The value is there: nothing was thrown.
abbrev pub IsSome {ℓ} : {A : Type ℓ} → Option A → Type ℓ
IsSome {A} o = (x : A) × (o ≡ some x)

pub map_or_none-IsSome {κ} :
    {B : Type κ} (f : Value → Option B) (xs : List Value)
    → All (λ x. IsSome (f x)) xs
    → IsSome (map_or_none f xs)
unfolding map_or_none
map_or_none-IsSome f [] h = ([], refl)
map_or_none-IsSome f (x ∷ xs) ((y, e), h) =
    let (ys, es) = map_or_none-IsSome f xs h in (y ∷ ys, rw (e, es, map_or_none) refl)

-- As above, with a property of each result.
pub map_or_none-All {κ μ} :
    {B : Type κ} (Q : B → Type μ) (f : Value → Option B) (xs : List Value)
    → All (λ x. (y : B) × (f x ≡ some y) × Q y) xs
    → (ys : List B) × (map_or_none f xs ≡ some ys) × All Q ys
unfolding map_or_none
map_or_none-All Q f [] h = ([], refl, tt)
map_or_none-All Q f (x ∷ xs) ((y, e, q), h) =
    let (ys, es, qs) = map_or_none-All Q f xs h in (y ∷ ys, rw (e, es, map_or_none) refl, (q, qs))

-- A filter whose test throws at no element keeps elements of the list.
filter_or_throw-IsSome :
    (P : Value → Type 0) (test : Value → Option Bool) (vs : List Value)
    → All (λ v. IsSome (test v)) vs
    → All P vs
    → (ws : List Value) × (filter_or_throw test vs ≡ some ws) × All P ws
unfolding filter_or_throw
filter_or_throw-IsSome P test [] h p = ([], refl, tt)
filter_or_throw-IsSome P test (v ∷ vs) ((true, e), h) (pv, p) =
    let (ws, es, q) = filter_or_throw-IsSome P test vs h p in
    (v ∷ ws, rw (e, es, filter_or_throw) refl, (pv, q))
filter_or_throw-IsSome P test (v ∷ vs) ((false, e), h) (pv, p) =
    let (ws, es, q) = filter_or_throw-IsSome P test vs h p in
    (ws, rw (e, es, filter_or_throw) refl, q)

pub All-map {ℓ κ μ} :
    {A : Type ℓ} (P : A → Type κ) (Q : A → Type μ)
    → ((x : A) → P x → Q x)
    → (xs : List A) → All P xs
    → All Q xs
All-map P Q f [] h = tt
All-map P Q f (x ∷ xs) (p, h) = (f x p, All-map P Q f xs h)

or_empty : (s : String) → (t : String) × (or_else (str s) (str "") ≡ str t)
or_empty s = elim (Bool-cases (str_eq s "")) [
  | inl empty ↦ ("", rw (empty, or_else))
  | inr there ↦ (s, rw (there, or_else))
]

pub All-take : (P : Value → Type 0) (n : ℕ) (vs : List Value) → All P vs → All P (take n vs)
All-take P zero vs h = tt
All-take P (suc n) [] h = tt
All-take P (suc n) (v ∷ vs) (p, h) = (p, All-take P n vs h)

module _ (time_text : ℕ → String) where
  message_matches-IsSome : (text message : String) → IsSome (message_matches text (str message))
  unfolding message_matches lower_of
  message_matches-IsSome text message =
      let (t, e) = or_empty message in
      (includes (lower_case t) (lower_case text), rw (e, message_matches) refl)

  matches_search-IsSome :
      (search : String) (a : Alert) → IsSome (matches_search search (alert_json time_text a))
  unfolding matches_search alert_json includes_of
  matches_search-IsSome search a = elim (Bool-cases (str_eq search "")) [
    | inl none_typed ↦ (true, rw (none_typed, matches_search) refl)
    | inr typed ↦
        let (t, e) = or_empty a.source_ip in
        elim (Bool-cases (includes t search)) [
          | inl found ↦ (true, rw (typed, e, found, matches_search) refl)
          | inr other ↦
              let (x, m) = message_matches-IsSome search a.message in
              (x, rw (typed, e, other, matches_search) m)
        ]
  ]

  is_shown_of :
      (d : Dashboard) (v : Value) (found : Bool)
      → truthy v ≡ true
      → matches_search d.search_ip v ≡ some found
      → IsSome (is_shown d v)
  unfolding is_shown
  is_shown_of d v found there m = (
    matches_choice d.filter_severity (member "severity" v)
        && (matches_choice d.filter_type (member "alert_type" v) && found),
    rw (there, m, is_shown) refl,
  )

  is_shown-IsSome : (d : Dashboard) (v : Value) → IsAlert time_text v → IsSome (is_shown d v)
  unfolding alert_json
  is_shown-IsSome d v (a, e) =
      let (found, m) = matches_search-IsSome d.search_ip a in
      is_shown_of d v found (rw e refl) (rw e m)

  feed_entry-IsSome : (l : Locale) (v : Value) → IsAlert time_text v → IsSome (feed_entry l v)
  unfolding feed_entry alert_json
  feed_entry-IsSome l v (a, e) = rw e (_, refl)

  alert_row-IsSome : (l : Locale) (v : Value) → IsAlert time_text v → IsSome (alert_row l v)
  unfolding alert_row alert_json
  alert_row-IsSome l v (a, e) = rw e (_, refl)

  pub filtered_alerts-IsAlert :
      (d : Dashboard)
      → All (IsAlert time_text) d.alerts
      → (shown : List Value) × (filtered_alerts d ≡ some shown) × All (IsAlert time_text) shown
  unfolding filtered_alerts
  filtered_alerts-IsAlert d h =
      filter_or_throw-IsSome (IsAlert time_text) (is_shown d) d.alerts
        (All-map (IsAlert time_text) (λ v. IsSome (is_shown d v)) (is_shown-IsSome d) d.alerts h) h

  -- A page with alerts of the server only has a feed, and a table of the alerts that the filters keep.
  pub alerts-IsSome :
      (l : Locale) (d : Dashboard)
      → All (IsAlert time_text) d.alerts
      → IsSome (alert_feed l d) × IsSome (alert_table l d)
  unfolding alert_feed alert_table
  alerts-IsSome l d h =
      let (shown, e, kept) = filtered_alerts-IsAlert d h in
      let (rows, drawn) = map_or_none-IsSome (alert_row l) shown (
        All-map (IsAlert time_text) (λ v. IsSome (alert_row l v)) (alert_row-IsSome l) shown
          kept) in
      (
        map_or_none-IsSome (feed_entry l) (take 4 d.alerts) (
            All-map (IsAlert time_text) (λ v. IsSome (feed_entry l v)) (feed_entry-IsSome l)
              (take 4 d.alerts) (All-take (IsAlert time_text) 4 d.alerts h)),
        (rows, rw (e, alert_table) drawn),
      )

  -- From the mounted page on, in every run in which GET /alerts is answered by the server and the
  -- packets of the socket are the hub's or do not parse, changes of tenant, failures and all other
  -- answers included, the list of alerts holds JSON of alerts only, and the feed and the filtered
  -- table of the alerts are drawn: no TypeError is thrown.
  play_rendered :
      (not_json : String) (l : Locale) (b : Browser) (ws : String) (inputs : List (Browser × Input))
      → AreOurs time_text not_json ws inputs (mount b ws)
      → All (IsAlert time_text) (play ws inputs (mount b ws)).page.alerts
        × IsSome (alert_feed l (play ws inputs (mount b ws)).page)
        × IsSome (alert_table l (play ws inputs (mount b ws)).page)
  unfolding mount
  play_rendered not_json l b ws inputs ours =
      let typed = play-IsAlert time_text not_json ws inputs (mount b ws) ours tt in
      let (fed, tabled) = alerts-IsSome l (play ws inputs (mount b ws)).page typed in
      (typed, fed, tabled)
