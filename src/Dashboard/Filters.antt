-- ===== src/Dashboard/Filters.antt =====
-- `filteredAlerts` of frontend/src/App.jsx. A test that calls a method on a value which has none is
-- a TypeError, and the page is not rendered: `none`.
pub mod Laws
use multi_tenant_siem.Base.{
  ℕ, zero, suc, ◌+◌, ◌-◌, ◌≤◌, ◌<◌, String, ◌≡◌, refl, sym, ap, ◌∙◌, ◌≢◌, ◌↔◌, ◌⊎◌, inl, inr, Bool,
  true, false, not, ◌&&◌, ◌||◌, Option, none, some, List, [], ◌∷◌, ◌++◌, arith, ltb, leb, ◌==◌,
  str_eq, eq_iff, eq_refl, if◌then◌else◌, Bool-cases, Option-cases, length, any, keep, All, Memᴰ,
  includes, lower_case,
}
use multi_tenant_siem.Js.{
  Value, undefined, null, bool, num, str, arr, obj, elements, truthy, or_else, member, strict_eq,
}
use multi_tenant_siem.Dashboard.State.{Dashboard}

-- `v.includes(text)`: of a text or an array
unfoldable pub includes_of : Value → String → Option Bool
unfolding strict_eq
includes_of (str s) text = some (includes s text)
includes_of (arr vs) text = some (any (strict_eq (str text)) (elements vs))
includes_of _ text = none

-- `v.toLowerCase()`
unfoldable pub lower_of : Value → Option String
unfolding lower_case
lower_of (str s) = some (lower_case s)
lower_of _ = none

-- `filter === 'ALL' || value === filter`
unfoldable pub matches_choice : String → Value → Bool
unfolding strict_eq
matches_choice filter value = str_eq filter "ALL" || strict_eq value (str filter)

-- `(alert.message || '').toLowerCase().includes(searchIP.toLowerCase())`
unfoldable pub message_matches : String → Value → Option Bool
unfolding lower_of lower_case
message_matches search message = elim (lower_of (or_else message (str ""))) [
  | none ↦ none
  | some text ↦ some (includes text (lower_case search))
]

-- `matchIP`: `||` evaluates its right side only if the left one is false
unfoldable pub matches_search : String → Value → Option Bool
unfolding includes_of message_matches
matches_search search alert =
    if str_eq search ""
    then some true
    else elim (includes_of (or_else (member "source_ip" alert) (str "")) search) [
      | none ↦ none
      | some true ↦ some true
      | some false ↦ message_matches search (member "message" alert)
    ]

-- The test of the filter, for one alert.
unfoldable pub is_shown : Dashboard → Value → Option Bool
unfolding matches_choice matches_search
is_shown d alert =
    if truthy alert
    then elim (matches_search d.search_ip alert) [
      | none ↦ none
      | some found ↦ some (
          matches_choice d.filter_severity (member "severity" alert)
          && (matches_choice d.filter_type (member "alert_type" alert) && found))
    ]
    else some false

-- `xs.filter(test)`, where the test may throw
unfoldable pub filter_or_throw : (Value → Option Bool) → List Value → Option (List Value)
filter_or_throw test [] = some []
filter_or_throw test (v ∷ vs) = elim (test v) [
  | none ↦ none
  | some shown ↦ elim (filter_or_throw test vs) [
    | none ↦ none
    | some rest ↦ some (if shown then v ∷ rest else rest)
  ]
]

unfoldable pub filtered_alerts : Dashboard → Option (List Value)
unfolding is_shown filter_or_throw
filtered_alerts d = filter_or_throw (is_shown d) d.alerts
