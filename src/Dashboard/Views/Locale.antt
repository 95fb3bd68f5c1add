-- ===== src/Dashboard/Views/Locale.antt =====
-- What the panels of frontend/src/App.jsx take from the browser's locale and time zone, and the
-- helpers that they share.
use multi_tenant_siem.Base.{String, Bool, true, false, Option, none, some, List, [], ◌∷◌}
use multi_tenant_siem.Js.{Value, undefined, null}
use multi_tenant_siem.Dashboard.Filters.{includes_of}

pub record Locale : Type 0 where
  -- `new Date(v).toLocaleTimeString()` and `new Date(v).toLocaleString()`
  pub time_text : Value → String
  pub date_time_text : Value → String
  -- `new Date(v).toISOString()`, which throws at an invalid date
  pub iso_text : Value → Option String
  -- `n.toLocaleString()`
  pub number_text : Value → String

-- `xs.map(f)`, where `f` may throw
unfoldable pub map_or_none {ℓ} : {A : Type ℓ} → (Value → Option A) → List Value → Option (List A)
map_or_none f [] = some []
map_or_none f (v ∷ vs) = elim (f v) [
  | none ↦ none
  | some a ↦ elim (map_or_none f vs) [ none ↦ none | some rest ↦ some (a ∷ rest) ]
]

-- `v.toLocaleString()`
abbrev pub locale_number : Locale → Value → Option String
locale_number l undefined = none
locale_number l null = none
locale_number l v = some (l.number_text v)

-- `path.includes(a) || path.includes(b) || …`
unfoldable pub includes_any : List String → Value → Option Bool
unfolding includes_of
includes_any [] path = some false
includes_any (t ∷ ts) path = elim (includes_of path t) [
  | none ↦ none
  | some true ↦ some true
  | some false ↦ includes_any ts path
]
