-- ===== src/Detection/Pace.antt =====
-- How far apart the failures of one alert may be
-- (ingestion-service/internal/detection/bruteforce.go).
use multi_tenant_siem.Base.{
  ◌*◌, ◌%◌, ℕ, zero, suc, ◌+◌, ◌-◌, ◌≤◌, ◌≡◌, refl, ap, ◌∙◌, true, none, some, List, [], ◌∷◌, arith,
  ◌==◌, eq_iff, if◌then◌else◌,
}
use multi_tenant_siem.Detection.Model.{Event, minute}
use multi_tenant_siem.Detection.BruteForce.{
  key_of, is_login_failure, brute_force_alert, detect_brute_force,
}
use multi_tenant_siem.Detection.BruteForce.Stream.{
  History, logins_after, failures, detect_brute_force_lem,
}
use multi_tenant_siem.Detection.Streaks.{streak}

-- `n` events alike, the first at `start` and each `gap` after the one before; the newest first.
abbrev pub paced : ℕ → ℕ → ℕ → Event → History
paced zero start gap e = []
paced (suc n) start gap e = (start + n * gap, e) ∷ paced n start gap e

abbrev pub times : ℕ → ℕ → ℕ → List ℕ
times zero start gap = []
times (suc n) start gap = (start + n * gap) ∷ times n start gap

failures-paced :
    (n start gap : ℕ) (e : Event)
    → is_login_failure e ≡ true
    → failures (key_of e) (paced n start gap e) ≡ times n start gap
unfolding failures
failures-paced zero start gap e h = refl
failures-paced (suc n) start gap e h =
    rw (h, (eq_iff (key_of e) (key_of e)).1 refl, failures-paced n start gap e h) refl

step_size : (n start gap : ℕ) → (start + suc n * gap) - (start + n * gap) ≡ gap
step_size n start gap = grind arith

-- Hits at most a minute apart are one streak.
streak-times : (n start gap : ℕ) → gap ≤ minute → streak (times n start gap) ≡ n
unfolding streak
streak-times zero start gap h = refl
streak-times (suc zero) start gap h = refl
streak-times (suc (suc n)) start gap h =
    rw (step_size n start gap) (ground (arith, streak-times (suc n) start gap h))

-- Login failures that come in steps of at most a minute raise an alert at each fifth, however long
-- the five take together: it may be four minutes.
pub detect_brute_force-paced :
    (n start gap : ℕ) (e : Event)
    → is_login_failure e ≡ true
    → gap ≤ minute
    → (detect_brute_force (start + n * gap) e (logins_after (paced n start gap e))).1
      ≡ (if (n + 1) % 5 == 0 then some (brute_force_alert e) else none)
detect_brute_force-paced n start gap e h g =
    detect_brute_force_lem (start + n * gap) e (paced n start gap e)
    ∙ rw (h, failures-paced n start gap e h)
        (ap (λ (k : ℕ). if k % 5 == 0 then some (brute_force_alert e) else none)
          (streak-times (suc n) start gap g ∙ omega arith))
