-- ===== src/Detection/Suppressor/Stream.antt =====
-- The suppressor over a stream of alerts
-- (ingestion-service/internal/detection/alert_suppressor.go).
use multi_tenant_siem.Base.{
  ℕ, ◌-◌, ◌≤◌, String, ◌≡◌, refl, ap, ◌∙◌, inl, inr, Bool, true, false, some, List, [], ◌∷◌, arith,
  str_eq, eq_iff, if◌then◌else◌, Bool-cases, head?,
}
use multi_tenant_siem.Detection.Model.{Alert}
use multi_tenant_siem.Detection.Store.{get, put, get-put}
use multi_tenant_siem.Detection.Suppressor.{
  AlertMap, key_of, window, is_repeat, should_suppress_alert,
}

-- Alerts with the times at which they come, the newest first.
abbrev pub History : Type 0
History = List (ℕ × Alert)

pub seen_after : History → AlertMap
unfolding should_suppress_alert
seen_after [] = []
seen_after ((t, a) ∷ h) = (should_suppress_alert t a (seen_after h)).0

-- Of the times at which alerts of one key come, those that pass, the newest first.
pub passed : List ℕ → List ℕ
unfolding is_repeat
passed [] = []
passed (t ∷ ts) = let rest = passed ts in if is_repeat t (head? rest) then rest else t ∷ rest

-- The times of the alerts under the key.
pub times : String → History → List ℕ
times k [] = []
times k ((t, a) ∷ h) = let rest = times k h in if str_eq (key_of a) k then t ∷ rest else rest

-- One call writes to the entry of the alert's own key, if the alert passes.
get-should_suppress_alert :
    (k : String) (t : ℕ) (a : Alert) (m : AlertMap)
    → get k (should_suppress_alert t a m).0 ≡ (
        if str_eq (key_of a) k
        then (if is_repeat t (get (key_of a) m) then get k m else some t)
        else get k m)
unfolding should_suppress_alert
get-should_suppress_alert k t a m = elim (Bool-cases (is_repeat t (get (key_of a) m))) [
  | inl repeat ↦ rw (repeat, should_suppress_alert) (ground arith)
  | inr fresh ↦ rw (fresh, should_suppress_alert) (get-put (key_of a) k t m)
]

passed-round :
    (same : Bool) (k j : String) (t : ℕ) (m : AlertMap) (ts : List ℕ)
    → (same ≡ true → j ≡ k)
    → get k m ≡ head? (passed ts)
    → (if same then (if is_repeat t (get j m) then get k m else some t) else get k m)
      ≡ head? (passed (if same then t ∷ ts else ts))
unfolding passed
passed-round true k j t m ts eq ih = rw (ap (λ i. get i m) (eq refl), ih) (ground arith)
passed-round false k j t m ts eq ih = ih

pub get-seen_after : (k : String) (h : History) → get k (seen_after h) ≡ head? (passed (times k h))
unfolding seen_after times
get-seen_after k [] = unfold get passed in refl
get-seen_after k ((t, a) ∷ h) =
    get-should_suppress_alert k t a (seen_after h)
    ∙ passed-round (str_eq (key_of a) k) k (key_of a) t (seen_after h) (times k h)
        (λ same. (eq_iff (key_of a) k).0 same) (get-seen_after k h)

-- Each time is at least five minutes after the one before it.
abbrev pub IsSpaced : List ℕ → Type 0
IsSpaced [] = Unit
IsSpaced (t ∷ []) = Unit
IsSpaced (t ∷ u ∷ ts) = (window ≤ t - u) × IsSpaced (u ∷ ts)

IsSpaced-cons :
    (t : ℕ) (ts : List ℕ) → is_repeat t (head? ts) ≡ false → IsSpaced ts → IsSpaced (t ∷ ts)
unfolding is_repeat
IsSpaced-cons t [] h s = tt
IsSpaced-cons t (u ∷ ts) h s = (ground arith, s)

-- Under one key, alerts pass at least five minutes apart.
passed-IsSpaced : (ts : List ℕ) → IsSpaced (passed ts)
unfolding passed
passed-IsSpaced [] = tt
passed-IsSpaced (t ∷ ts) = elim (Bool-cases (is_repeat t (head? (passed ts)))) [
  | inl repeat ↦ rw (repeat, passed) (passed-IsSpaced ts)
  | inr fresh ↦ rw (fresh, passed) (IsSpaced-cons t (passed ts) fresh (passed-IsSpaced ts))
]

-- An alert is held back exactly if the last alert that passed under its key, tenant, type and
-- address, came less than five minutes before it; and those that pass under the key are at least
-- five minutes apart.
pub should_suppress_alert_lem :
    (t : ℕ) (a : Alert) (h : History)
    → ((should_suppress_alert t a (seen_after h)).1
        ≡ is_repeat t (head? (passed (times (key_of a) h))))
      × IsSpaced (passed (times (key_of a) ((t, a) ∷ h)))
unfolding should_suppress_alert
should_suppress_alert_lem t a h = (
  answer_is (is_repeat t (get (key_of a) (seen_after h))) (seen_after h)
        (put (key_of a) t (seen_after h))
      ∙ ap (is_repeat t) (get-seen_after (key_of a) h),
  passed-IsSpaced (times (key_of a) ((t, a) ∷ h)),
)
  where
    answer_is :
        (b : Bool) (m n : AlertMap)
        → (if◌then◌else◌ {A = AlertMap × Bool} b (m, true) (n, false)).1 ≡ b
    answer_is true m n = refl
    answer_is false m n = refl
