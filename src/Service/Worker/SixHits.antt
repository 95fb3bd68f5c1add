-- ===== src/Service/Worker/SixHits.antt =====
-- Six login failures under one key, three events that come twice, and the alert of the fifth
-- (ingestion-service/internal/service/worker.go).
use multi_tenant_siem.Base.{
  ℕ, ◌+◌, ◌≤◌, String, ◌≡◌, refl, ap, Bool, true, false, none, some, List, [], ◌∷◌, arith, eq_refl,
  if◌then◌else◌, All,
}
use multi_tenant_siem.Detection.Model.{Event, minute}
use multi_tenant_siem.Detection.BruteForce.{key_of, is_login_failure, brute_force_alert}
use multi_tenant_siem.Detection.BruteForce.Stream.{History, failures}
use multi_tenant_siem.Detection.Streaks.{streak, is_fifth}
use multi_tenant_siem.Service.Alerts.{AlertService, new_alert_service, stored_alert, create_alert}
use multi_tenant_siem.Service.Hub.{Hub, broadcast}
use multi_tenant_siem.Service.Worker.{Moment}
use multi_tenant_siem.Service.Worker.Heard.{due, heard}

-- Events that the detector counts under one key.
abbrev pub IsHit : String → Event → Type 0
IsHit k e = (is_login_failure e ≡ true) × (key_of e ≡ k)

abbrev pub times : History → List ℕ
times [] = []
times ((t, e) ∷ h) = t ∷ times h

failures-times :
    (k : String) (h : History) → All (λ (x : ℕ × Event). IsHit k x.1) h → failures k h ≡ times h
unfolding failures
failures-times k [] hits = refl
failures-times k ((t, e) ∷ h) ((failed, at), hits) =
    rw (failed, at, eq_refl, failures) (ap (◌∷◌ t) (failures-times k h hits))

pub due-times :
    (k : String) (t : ℕ) (e : Event) (h : History) (b : Bool)
    → IsHit k e
    → All (λ (x : ℕ × Event). IsHit k x.1) h
    → is_fifth (t ∷ times h) ≡ b
    → due t e h ≡ (if b then some (brute_force_alert e) else none)
due-times k t e h b (failed, at) hits fifth =
    rw (failed, at) (rw (failures-times k h hits, fifth) refl)

-- Of six attempts, each at most a minute after the one before it, the fifth alone ends a streak.
fifth_of_six :
    (t1 t2 t3 t4 t5 t6 : ℕ)
    → t2 ≤ t1 + minute
    → t3 ≤ t2 + minute
    → t4 ≤ t3 + minute
    → t5 ≤ t4 + minute
    → (is_fifth (t1 ∷ []) ≡ false)
      × (is_fifth (t2 ∷ t1 ∷ []) ≡ false)
      × (is_fifth (t3 ∷ t2 ∷ t1 ∷ []) ≡ false)
      × (is_fifth (t4 ∷ t3 ∷ t2 ∷ t1 ∷ []) ≡ false)
      × (is_fifth (t5 ∷ t4 ∷ t3 ∷ t2 ∷ t1 ∷ []) ≡ true)
      × (is_fifth (t6 ∷ t5 ∷ t4 ∷ t3 ∷ t2 ∷ t1 ∷ []) ≡ false)
unfolding streak
fifth_of_six t1 t2 t3 t4 t5 t6 h2 h3 h4 h5 =
    (refl, ground arith, ground arith, ground arith, ground arith, ground arith)

-- The detector takes each of five events at most a minute after the one before it.
abbrev pub IsPaced : (ℕ → Moment) → Type 0
IsPaced m =
    ((m 1).brute_force_at ≤ (m 0).brute_force_at + minute)
    × ((m 2).brute_force_at ≤ (m 1).brute_force_at + minute)
    × ((m 3).brute_force_at ≤ (m 2).brute_force_at + minute)
    × ((m 4).brute_force_at ≤ (m 3).brute_force_at + minute)

-- What the detector has taken before the first event of the third line.
abbrev pub third_history : (ℕ → Moment) → Event → Event → History
third_history m e1 e2 =
    ((m 3).brute_force_at, e2)
    ∷ ((m 2).brute_force_at, e2)
    ∷ ((m 1).brute_force_at, e1)
    ∷ ((m 0).brute_force_at, e1)
    ∷ []

pub third_history-is_fifth :
    (m : ℕ → Moment) (e1 e2 : Event)
    → IsPaced m
    → is_fifth ((m 4).brute_force_at ∷ times (third_history m e1 e2)) ≡ true
third_history-is_fifth m e1 e2 (p1, p2, p3, p4) = (fifth_of_six _ _ _ _ _ 0 p1 p2 p3 p4).4

-- The service of the alerts after the six events, if it was a new one over this hub.
abbrev pub heard_alerts : (ℕ → Moment) → Event → Event → Event → Hub → AlertService
heard_alerts m e1 e2 e3 hub =
    heard m 0 (e1 ∷ e1 ∷ e2 ∷ e2 ∷ e3 ∷ e3 ∷ []) [] (record new_alert_service { hub = hub })

-- After six hits, this one alert is stored and broadcast.
pub heard_six :
    (k : String) (e1 e2 e3 : Event) (m : ℕ → Moment) (answer : ℕ × ℕ) (hub : Hub)
    → IsHit k e1
    → IsHit k e2
    → IsHit k e3
    → IsPaced m
    → (m 4).brute_force_row ≡ some answer
    → ((heard_alerts m e1 e2 e3 hub).stored ≡ stored_alert (brute_force_alert e3) answer ∷ [])
      × ((heard_alerts m e1 e2 e3 hub).hub
          ≡ broadcast (stored_alert (brute_force_alert e3) answer) hub)
unfolding heard create_alert
heard_six k e1 e2 e3 m answer hub i1 i2 i3 (p1, p2, p3, p4) row =
    let t = λ (n : ℕ). (m n).brute_force_at in
    let (n1, n2, n3, n4, y5, n6) = fifth_of_six (t 0) (t 1) (t 2) (t 3) (t 4) (t 5) p1 p2 p3 p4 in
    rw
      (
        due-times k (t 0) e1 [] false i1 tt n1,
        due-times k (t 1) e1 ((t 0, e1) ∷ []) false i1 (i1, tt) n2,
        due-times k (t 2) e2 ((t 1, e1) ∷ (t 0, e1) ∷ []) false i2 (i1, (i1, tt)) n3,
        due-times k (t 3) e2 ((t 2, e2) ∷ (t 1, e1) ∷ (t 0, e1) ∷ []) false i2 (i2, (i1, (i1, tt)))
            n4,
        due-times k (t 4) e3 ((t 3, e2) ∷ (t 2, e2) ∷ (t 1, e1) ∷ (t 0, e1) ∷ []) true i3
            (i2, (i2, (i1, (i1, tt)))) y5,
        due-times k (t 5) e3 ((t 4, e3) ∷ (t 3, e2) ∷ (t 2, e2) ∷ (t 1, e1) ∷ (t 0, e1) ∷ []) false
            i3 (i3, (i2, (i2, (i1, (i1, tt))))) n6,
        row,
      )
      (refl, refl)
