-- ===== src/Dashboard/Timeline.antt =====
-- The hourly timeline of frontend/src/App.jsx: `analyticsMap` and `analyticsData`. `hour_of` is
-- `new Date(created_at).getHours()`, which depends on the browser's time zone; `none` is NaN, from a
-- text that is no date.
pub mod Counts
pub mod Order
use Prim.Native.Nat.{Ordering}
use Prim.Native.String
use multi_tenant_siem.Base.{
  ℕ, zero, suc, ◌+◌, ◌-◌, ◌≤◌, ◌<◌, String, ◌≡◌, refl, sym, ap, ◌∙◌, ◌≢◌, ◌↔◌, ◌⊎◌, inl, inr, Bool,
  true, false, not, ◌&&◌, ◌||◌, Option, none, some, List, [], ◌∷◌, ◌++◌, arith, ltb, leb, ◌==◌,
  str_eq, eq_iff, eq_refl, if◌then◌else◌, Bool-cases, Option-cases, length, any, keep, All, Memᴰ,
  concat, decimal, map,
}
use multi_tenant_siem.Js.{Value, truthy, member}

-- `analyticsMap`: the hours in the order in which they are first met, with their counts
abbrev pub Tally : Type 0
Tally = List (String × ℕ)

-- `if (!map[hour]) { map[hour] = 0 }` and `map[hour] += 1`
unfoldable pub bump : String → Tally → Tally
bump hour [] = (hour, 1) ∷ []
bump hour ((h, n) ∷ rest) = if str_eq h hour then (h, n + 1) ∷ rest else (h, n) ∷ bump hour rest

-- `` `${String(h).padStart(2, '0')}:00` ``
unfoldable pub hour_label : Option ℕ → String
hour_label none = "NaN:00"
hour_label (some h) = concat ((if ltb h 10 then "0" else "") ∷ decimal h ∷ ":00" ∷ [])

-- `!alert || !alert.created_at` leaves the alert out.
unfoldable pub is_counted : Value → Bool
is_counted alert = truthy alert && truthy (member "created_at" alert)

module _ (hour_of : Value → Option ℕ) where
  abbrev pub label_of : Value → String
  label_of alert = hour_label (hour_of (member "created_at" alert))

  -- The `forEach` over the alerts.
  unfoldable pub analytics_map : List Value → Tally → Tally
  unfolding bump is_counted hour_label
  analytics_map [] tally = tally
  analytics_map (alert ∷ rest) tally =
      analytics_map rest (if is_counted alert then bump (label_of alert) tally else tally)

-- `{ time, alerts }`
pub record Hour : Type 0 where
  pub time : String
  pub alerts : ℕ

-- `.sort()` of the keys, by the order of their characters
abbrev pub text_le : String → String → Bool
text_le s t = elim (String.compare s t) [ Ordering.gt ↦ false | _ ↦ true ]

unfoldable pub insert_key : String → List String → List String
insert_key k [] = k ∷ []
insert_key k (j ∷ rest) = if text_le k j then k ∷ j ∷ rest else j ∷ insert_key k rest

unfoldable pub sort_keys : List String → List String
unfolding insert_key
sort_keys [] = []
sort_keys (k ∷ rest) = insert_key k (sort_keys rest)

abbrev pub keys : Tally → List String
keys [] = []
keys ((h, n) ∷ rest) = h ∷ keys rest

-- `analyticsMap[hour]`, where the hour is a key
unfoldable pub count_at : String → Tally → ℕ
count_at hour [] = 0
count_at hour ((h, n) ∷ rest) = if str_eq h hour then n else count_at hour rest

unfoldable pub analytics_data : (Value → Option ℕ) → List Value → List Hour
unfolding analytics_map sort_keys count_at
analytics_data hour_of alerts =
    let tally = analytics_map hour_of alerts [] in
    map (λ hour. record { time = hour; alerts = count_at hour tally }) (sort_keys (keys tally))
