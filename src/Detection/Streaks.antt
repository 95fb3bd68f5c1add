-- ===== src/Detection/Streaks.antt =====
-- What the two detectors of ingestion-service/internal/detection count: the length of a streak of
-- hits under one key, in which no hit comes more than a minute after the one before it.
-- Histories have their newest hit first.
use multi_tenant_siem.Base.{
  ℕ, ◌+◌, ◌-◌, ◌≡◌, refl, ap, ◌∙◌, Bool, Option, none, some, List, [], ◌∷◌, arith, ltb, ◌==◌,
  if◌then◌else◌, ◌%◌,
}
use multi_tenant_siem.Detection.Model.{minute}
use multi_tenant_siem.Detection.BruteForce.{FailedAttempt, attempt}
use multi_tenant_siem.Detection.WebScan.{ScanTracker, track}

-- The length of the streak that the newest hit ends.
unfoldable pub streak : List ℕ → ℕ
streak [] = 0
streak (t ∷ []) = 1
streak (t ∷ u ∷ rest) = if ltb minute (t - u) then 1 else streak (u ∷ rest) + 1

-- The newest hit is a fifth, tenth, … of its streak.
abbrev pub is_fifth : List ℕ → Bool
is_fifth h = streak h % 5 == 0

-- The entry of the brute force detector after a history.
unfoldable pub attempts : List ℕ → Option FailedAttempt
unfolding attempt
attempts [] = none
attempts (t ∷ h) = some (attempt t (attempts h)).0

-- The tracker of the scan detector after a history.
unfoldable pub tracks : List ℕ → Option ScanTracker
unfolding track
tracks [] = none
tracks (t ∷ h) = some (track t (tracks h)).0

-- What an entry or tracker with the count and the time does at the next hit.
attempt-streak :
    (t u n : ℕ)
    → attempt t (some (record { count = n % 5; last_attempt = u })) ≡ (
        let m = if ltb minute (t - u) then 1 else n + 1 in
        (record { count = m % 5; last_attempt = t }, m % 5 == 0))
unfolding attempt
attempt-streak t u n = ground arith

track-streak :
    (t u n : ℕ)
    → track t (some (record { count = n % 5; last_seen = u })) ≡ (
        let m = if ltb minute (t - u) then 1 else n + 1 in
        (record { count = m % 5; last_seen = t }, m % 5 == 0))
unfolding track
track-streak t u n = ground arith

-- The brute force detector counts streaks modulo five, and raises an alert at each fifth hit.
pub attempts_lem :
    (t : ℕ) (h : List ℕ)
    → attempt t (attempts h)
      ≡ (record { count = streak (t ∷ h) % 5; last_attempt = t }, is_fifth (t ∷ h))
unfolding attempts streak
attempts_lem t [] = unfold attempt in refl
attempts_lem t (u ∷ h) =
    ap (λ (p : FailedAttempt × Bool). attempt t (some p.0)) (attempts_lem u h)
    ∙ attempt-streak t u (streak (u ∷ h))

-- So does the scan detector.
pub tracks_lem :
    (t : ℕ) (h : List ℕ)
    → track t (tracks h) ≡ (record { count = streak (t ∷ h) % 5; last_seen = t }, is_fifth (t ∷ h))
unfolding tracks streak
tracks_lem t [] = unfold track in refl
tracks_lem t (u ∷ h) =
    ap (λ (p : ScanTracker × Bool). track t (some p.0)) (tracks_lem u h)
    ∙ track-streak t u (streak (u ∷ h))
