-- ===== src/Dashboard/Views/Paths.antt =====
-- The chart and the table of request paths of frontend/src/App.jsx.
use multi_tenant_siem.Base.{
  String, ◌≡◌, inl, inr, Bool, true, false, Option, none, some, List, [], ◌∷◌, ◌++◌, arith,
  if◌then◌else◌, Option-cases, take,
}
use multi_tenant_siem.Js.{Value, get, member}
use multi_tenant_siem.Dashboard.State.{Dashboard}
use multi_tenant_siem.Dashboard.Views.Locale.{Locale, map_or_none, locale_number, includes_any}

-- `entry.path`, with the TypeError of a `null` entry.
abbrev then_path : Value → (Value → Option Bool) → Option Bool
then_path entry f = elim (get "path" entry) [ none ↦ none | some path ↦ f path ]

-- A bar is pink for a path with ".env" or "admin" in it.
unfoldable pub is_pink : Value → Option Bool
unfolding includes_any
is_pink entry = then_path entry (includes_any (".env" ∷ "admin" ∷ []))

abbrev pub bar_colour : Bool → String
bar_colour true = "#ec4899"
bar_colour false = "#06b6d4"

-- The colours of the bars: the chart shows the first six paths.
unfoldable pub path_bars : Dashboard → Option (List String)
unfolding is_pink map_or_none
path_bars d =
    map_or_none (λ entry. elim (is_pink entry) [ none ↦ none | some pink ↦ some (bar_colour pink) ])
      (take 6 d.top_paths)

unfoldable pub is_high_risk : Value → Option Bool
unfolding includes_any
is_high_risk item = then_path item (includes_any (".env" ∷ "admin" ∷ "passwd" ∷ []))

pub record PathRow : Type 0 where
  pub path : Value
  pub hits : String
  pub risk_class : String
  pub risk : String

unfoldable pub path_row : Locale → Value → Option PathRow
unfolding is_high_risk
path_row l item = elim (is_high_risk item) [
  | none ↦ none
  | some high ↦ elim (locale_number l (member "count" item)) [
    | none ↦ none
    | some hits ↦ some (record {
      path = member "path" item;
      hits = hits;
      risk_class =
          if high
          then "bg-rose-500/10 text-rose-400 border-rose-500/20"
          else "bg-slate-800 text-slate-400 border-white/5";
      risk = if high then "SUSPICIOUS ACCESS" else "STANDARD ASSET";
    })
  ]
]

-- The rows of the table; `some []` is the text for an empty table.
unfoldable pub path_table : Locale → Dashboard → Option (List PathRow)
unfolding path_row map_or_none
path_table l d = map_or_none (path_row l) d.top_paths

-- What is found among some texts is found among more.
includes_any-append :
    (ts us : List String) (v : Value)
    → includes_any ts v ≡ some true
    → includes_any (ts ++ us) v ≡ some true
unfolding includes_any
includes_any-append [] us v h = cc
includes_any-append (t ∷ ts) us v h = ground (arith, includes_any-append ts us v)

-- A path whose bar is pink is a suspicious access in the table.
pub is_high_risk_of_pink :
    (entry : Value) → is_pink entry ≡ some true → is_high_risk entry ≡ some true
unfolding is_pink is_high_risk
is_high_risk_of_pink entry h = elim (Option-cases (get "path" entry)) [
  | inl thrown ↦ ground arith
  | inr (path, e) ↦
      rw (e, then_path)
        (includes_any-append (".env" ∷ "admin" ∷ []) ("passwd" ∷ []) path (rw (e, then_path) at h))
]
