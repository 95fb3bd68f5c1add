-- ===== src/Detection/BruteForce/Stream.antt =====
-- The brute force detector over a stream of events of many tenants and addresses
-- (ingestion-service/internal/detection/bruteforce.go).
use multi_tenant_siem.Base.{
  &&-split, ℕ, String, ◌≡◌, refl, ap, ◌∙◌, inl, inr, Bool, true, false, ◌&&◌, Option, none, some,
  List, [], ◌∷◌, str_eq, eq_iff, if◌then◌else◌, Bool-cases,
}
use multi_tenant_siem.Detection.Model.{Event}
use multi_tenant_siem.Detection.Store.{get, get-put}
use multi_tenant_siem.Detection.BruteForce.{
  FailedAttempt, FailedLogins, key_of, is_login_failure, brute_force_alert, attempt,
  detect_brute_force,
}
use multi_tenant_siem.Detection.Streaks.{is_fifth, attempts, attempts_lem}

-- Events with the times at which they are handled, the newest first.
abbrev pub History : Type 0
History = List (ℕ × Event)

-- The map after a history.
unfoldable pub logins_after : History → FailedLogins
unfolding detect_brute_force
logins_after [] = []
logins_after ((t, e) ∷ h) = (detect_brute_force t e (logins_after h)).0

-- The times of the login failures under the key.
unfoldable pub failures : String → History → List ℕ
unfolding is_login_failure
failures k [] = []
failures k ((t, e) ∷ h) =
    let rest = failures k h in if is_login_failure e && str_eq (key_of e) k then t ∷ rest else rest

-- One call writes to the entry of the event's own key, if the event is a login failure.
get-detect_brute_force :
    (k : String) (t : ℕ) (e : Event) (m : FailedLogins)
    → get k (detect_brute_force t e m).0 ≡ (
        if is_login_failure e && str_eq (key_of e) k
        then some (attempt t (get (key_of e) m)).0
        else get k m)
unfolding detect_brute_force
get-detect_brute_force k t e m = elim (Bool-cases (is_login_failure e)) [
  | inl failure ↦
      rw (failure, detect_brute_force) (get-put (key_of e) k (attempt t (get (key_of e) m)).0 m)
  | inr other ↦ rw (other, detect_brute_force)
]

attempts-round :
    (hit : Bool) (k j : String) (t : ℕ) (m : FailedLogins) (h : List ℕ)
    → (hit ≡ true → j ≡ k)
    → get k m ≡ attempts h
    → (if hit then some (attempt t (get j m)).0 else get k m) ≡ attempts (if hit then t ∷ h else h)
unfolding attempts
attempts-round true k j t m h same ih =
    ap (λ (o : Option FailedAttempt). some (attempt t o).0) (ap (λ i. get i m) (same refl) ∙ ih)
attempts-round false k j t m h same ih = ih

-- The map holds, at each key, what the failures under that key alone make of it.
pub get-logins_after : (k : String) (h : History) → get k (logins_after h) ≡ attempts (failures k h)
unfolding logins_after failures
get-logins_after k [] = unfold get attempts in refl
get-logins_after k ((t, e) ∷ h) =
    get-detect_brute_force k t e (logins_after h)
    ∙ attempts-round (is_login_failure e && str_eq (key_of e) k) k (key_of e) t (logins_after h)
        (failures k h) (λ both. (eq_iff (key_of e) k).0 (&&-split _ _ both).1)
        (get-logins_after k h)

-- An alert is raised for an event exactly if the event is a login failure and it is a fifth, tenth,
-- … failure in an unbroken streak of failures of its own key, tenant and address; the alert names
-- these. Events under other keys change nothing.
pub detect_brute_force_lem :
    (t : ℕ) (e : Event) (h : History)
    → (detect_brute_force t e (logins_after h)).1 ≡ (
        if is_login_failure e && is_fifth (t ∷ failures (key_of e) h)
        then some (brute_force_alert e)
        else none)
unfolding detect_brute_force
detect_brute_force_lem t e h = elim (Bool-cases (is_login_failure e)) [
  | inl failure ↦ rw (failure, detect_brute_force) (rw (get-logins_after, attempts_lem) refl)
  | inr other ↦ rw (other, detect_brute_force)
]
