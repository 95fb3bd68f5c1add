-- ===== src/Dashboard/Filters/Laws.antt =====
-- Which alerts the filters of frontend/src/App.jsx show.
use multi_tenant_siem.Base.{
  String, ◌≡◌, refl, ap, ◌⊎◌, inl, inr, Bool, true, false, ◌&&◌, Option, none, some, List, [], ◌∷◌,
  arith, str_eq, eq_iff, if◌then◌else◌, Bool-cases, Option-cases, keep, Memᴰ, includes, lower_case,
  mem-keep_inv,
}
use mathlib.Core.Path.{subst}
use multi_tenant_siem.Js.{Value, str, truthy, or_else, member, eq_of_strict_eq}
use multi_tenant_siem.Dashboard.State.{Dashboard, Browser}
use multi_tenant_siem.Dashboard.Session.{on_click, clear_filters}
use multi_tenant_siem.Dashboard.Filters.{
  is_shown, filter_or_throw, filtered_alerts, matches_search, matches_choice, includes_of, lower_of,
  message_matches,
}

abbrev is_some_true : Option Bool → Bool
is_some_true none = false
is_some_true (some b) = b

some-true : (o : Option Bool) → is_some_true o ≡ true → o ≡ some true
some-true none h = cc
some-true (some b) h = ap some h

-- A filter that does not throw is the plain filter.
filter_or_throw-eq-keep :
    (test : Value → Option Bool) (xs rows : List Value)
    → filter_or_throw test xs ≡ some rows
    → rows ≡ keep (λ v. is_some_true (test v)) xs
unfolding filter_or_throw
filter_or_throw-eq-keep test [] rows e = ground arith
filter_or_throw-eq-keep test (v ∷ vs) rows e = elim (Option-cases (filter_or_throw test vs)) [
  | inl thrown ↦ ground arith
  | inr (rest, e') ↦ ground (arith, filter_or_throw-eq-keep test vs rest e')
]

-- A filter of the page: "ALL", or the value that is chosen.
abbrev pub Chosen : String → Value → Type 0
Chosen filter value = (filter ≡ "ALL") ⊎ (value ≡ str filter)

Chosen-of :
    (filter : String) (value : Value) → matches_choice filter value ≡ true → Chosen filter value
unfolding matches_choice
Chosen-of filter value h = elim (Bool-cases (str_eq filter "ALL")) [
  | inl all ↦ inl ((eq_iff filter "ALL").0 all)
  | inr other ↦ inr (eq_of_strict_eq value (str filter) (rw other at h))
]

-- The search text is empty, or in the source address, or in the message, in any case of letters.
abbrev pub Found : String → Value → Type 0
Found search alert =
    (search ≡ "")
    ⊎ ((includes_of (or_else (member "source_ip" alert) (str "")) search ≡ some true)
        ⊎ ((message : String) × (or_else (member "message" alert) (str "") ≡ str message)
            × (includes (lower_case message) (lower_case search) ≡ true)))

-- The message of an alert, as a text.
lower_of-eq_some :
    (v : Value) (t : String) → lower_of v ≡ some t → (s : String) × (v ≡ str s) × (t ≡ lower_case s)
unfolding lower_of
lower_of-eq_some (str s) t e = (s, refl, ground arith)
lower_of-eq_some _ t e = cc

matched :
    (f : String → Bool) (o : Option String) (t : String)
    → o ≡ some t
    → (elim o [ none ↦ none | some text ↦ some (f text) ]) ≡ some true
    → f t ≡ true
matched f none t e h = cc
matched f (some u) t e h = ground arith

message_found :
    (search : String) (v : Value)
    → message_matches search v ≡ some true
    → (message : String) × (or_else v (str "") ≡ str message)
      × (includes (lower_case message) (lower_case search) ≡ true)
unfolding message_matches
message_found search v h = elim (Option-cases (lower_of (or_else v (str "")))) [
  | inl none_there ↦ ground arith
  | inr (t, e) ↦
      let (s, e', e'') = lower_of-eq_some (or_else v (str "")) t e in
      (
        s,
        e',
        subst (λ u. includes u (lower_case search) ≡ true) e''
            (matched (λ u. includes u (lower_case search)) (lower_of (or_else v (str ""))) t e h),
      )
]

Found-of :
    (search : String) (alert : Value) → matches_search search alert ≡ some true → Found search alert
unfolding matches_search
Found-of search alert h = elim (Bool-cases (str_eq search "")) [
  | inl empty ↦ inl ((eq_iff search "").0 empty)
  | inr given ↦
      elim (Option-cases (includes_of (or_else (member "source_ip" alert) (str "")) search)) [
        | inl thrown ↦ ground arith
        | inr (true, e) ↦ inr (inl e)
        | inr (false, e) ↦ inr (inr (message_found search (member "message" alert) (ground arith)))
      ]
]

abbrev pub IsMatch : Dashboard → Value → Type 0
IsMatch d x =
    (truthy x ≡ true)
    × Chosen d.filter_severity (member "severity" x)
    × Chosen d.filter_type (member "alert_type" x)
    × Found d.search_ip x

-- The test of the filter, taken apart.
shown_split :
    (there : Bool) (found : Option Bool) (severity type : Bool)
    → (if there
        then elim found [ none ↦ none | some f ↦ some (severity && (type && f)) ]
        else some false)
      ≡ some true
    → (there ≡ true) × (severity ≡ true) × (type ≡ true) × (found ≡ some true)
shown_split there found severity type h = ground arith

IsMatch-of : (d : Dashboard) (x : Value) → is_shown d x ≡ some true → IsMatch d x
unfolding is_shown
IsMatch-of d x h =
    let (there, severity, type, found) =
      shown_split (truthy x) (matches_search d.search_ip x)
        (matches_choice d.filter_severity (member "severity" x))
        (matches_choice d.filter_type (member "alert_type" x)) h in
    (
      there,
      Chosen-of d.filter_severity (member "severity" x) severity,
      Chosen-of d.filter_type (member "alert_type" x) type,
      Found-of d.search_ip x found,
    )

-- Where the filters do not throw, the table has only alerts of the page that match all three
-- filters.
pub filtered_alerts_sound :
    (d : Dashboard) (rows : List Value) (x : Value)
    → filtered_alerts d ≡ some rows
    → Memᴰ x rows
    → Memᴰ x d.alerts × IsMatch d x
unfolding filtered_alerts
filtered_alerts_sound d rows x e m =
    let (old, passed) =
      mem-keep_inv (λ v. is_some_true (is_shown d v)) d.alerts
        (subst (λ l. Memᴰ x l) (filter_or_throw-eq-keep (is_shown d) d.alerts rows e) m) in
    (old, IsMatch-of d x (some-true (is_shown d x) passed))

is_shown_clear :
    (b : Browser) (d : Dashboard) (v : Value)
    → is_shown (on_click b clear_filters d) v ≡ some (truthy v)
unfolding is_shown on_click matches_choice
is_shown_clear b d v = ground arith

filter_or_throw_total :
    (test : Value → Option Bool) (p : Value → Bool)
    → ((v : Value) → test v ≡ some (p v))
    → (xs : List Value) → filter_or_throw test xs ≡ some (keep p xs)
unfolding filter_or_throw
filter_or_throw_total test p h [] = refl
filter_or_throw_total test p h (v ∷ vs) = ground (arith, h v, filter_or_throw_total test p h vs)

-- With the filters cleared, every alert is shown, and nothing throws.
pub filtered_alerts-clear_filters :
    (b : Browser) (d : Dashboard)
    → filtered_alerts (on_click b clear_filters d) ≡ some (keep truthy d.alerts)
unfolding filtered_alerts on_click
filtered_alerts-clear_filters b d =
    filter_or_throw_total (is_shown (on_click b clear_filters d)) truthy (is_shown_clear b d)
      d.alerts
