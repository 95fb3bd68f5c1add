-- ===== src/Examples/Panels.antt =====
-- The filters, the timeline, the toasts and the paths of the page (frontend/src/App.jsx).
use multi_tenant_siem.Base.{ℕ, ◌≡◌, refl, Option, none, some, [], ◌∷◌, All, Memᴰ, decimal, true}
use multi_tenant_siem.Js.{Value, str, num, obj, field, end}
use multi_tenant_siem.Dashboard.State.{Dashboard, Browser, init}
use multi_tenant_siem.Dashboard.Filters.{filtered_alerts}
use multi_tenant_siem.Dashboard.Filters.Laws.{IsMatch, filtered_alerts_sound}
use multi_tenant_siem.Dashboard.Timeline.{analytics_data}
use multi_tenant_siem.Dashboard.Timeline.Counts.{hits, counted, counts, sum, analytics_data-counts}

abbrev browser : Browser
browser = record {
  ms = 1000;
  time_text = "10:00:00";
  type_error = "is not a function";
  has_clipboard = true;
}

abbrev later : Browser
later = record {
  ms = 4000;
  time_text = "10:00:03";
  type_error = "is not a function";
  has_clipboard = true;
}

abbrev high : Value
high = obj (
    field "severity" (str "HIGH") (
      field "alert_type" (str "BRUTE_FORCE")
        (field "source_ip" (str "10.0.0.7") (field "created_at" (num 7) end))))

abbrev low : Value
low = obj (field "severity" (str "LOW") (field "source_ip" (str "10.0.0.8") end))

abbrev filtering : Dashboard
filtering = record init { alerts = low ∷ high ∷ []; filter_severity = "HIGH"; search_ip = "0.7" }

shown : filtered_alerts filtering ≡ some (high ∷ [])
unfolding filtered_alerts
shown = refl

filtered_alerts_sound_example : Memᴰ high filtering.alerts × IsMatch filtering high
filtered_alerts_sound_example =
    filtered_alerts_sound filtering (high ∷ []) high shown (Memᴰ.head refl)

-- The hour of a time that is a number.
abbrev hour : Value → Option ℕ
hour (num n) = some n
hour _ = none

analytics_data-counts_example :
    All
      (λ r. r.alerts ≡ hits hour r.time (high ∷ low ∷ high ∷ []))
      (analytics_data hour (high ∷ low ∷ high ∷ []))
    × (sum (counts (analytics_data hour (high ∷ low ∷ high ∷ [])))
        ≡ counted hour (high ∷ low ∷ high ∷ []))
analytics_data-counts_example = analytics_data-counts hour (high ∷ low ∷ high ∷ [])

two_rows_are_one :
    analytics_data hour (high ∷ low ∷ high ∷ []) ≡ record { time = "07:00"; alerts = 2 } ∷ []
unfolding analytics_data decimal
two_rows_are_one = refl
