-- ===== src/Detection/WebScan/Stream.antt =====
-- The scan detector over a stream of events of many tenants and addresses
-- (ingestion-service/internal/detection/scan_detector.go).
use multi_tenant_siem.Base.{
  ℕ, String, ◌≡◌, refl, ap, ◌∙◌, inl, inr, Bool, true, false, ◌&&◌, Option, none, some, List, [],
  ◌∷◌, str_eq, eq_iff, if◌then◌else◌, Bool-cases, &&-split,
}
use multi_tenant_siem.Detection.Model.{Event}
use multi_tenant_siem.Detection.Store.{get, get-put}
use multi_tenant_siem.Detection.WebScan.{
  ScanTracker, ScanMap, key_of, is_probe, web_scan_alert, track, detect_web_scan,
}
use multi_tenant_siem.Detection.Streaks.{is_fifth, tracks, tracks_lem}

-- Events with the times at which they are handled, the newest first.
abbrev pub History : Type 0
History = List (ℕ × Event)

-- The map after a history.
pub scans_after : History → ScanMap
unfolding detect_web_scan
scans_after [] = []
scans_after ((t, e) ∷ h) = (detect_web_scan t e (scans_after h)).0

-- The times of the probes under the key.
pub probes : String → History → List ℕ
unfolding is_probe
probes k [] = []
probes k ((t, e) ∷ h) =
    let rest = probes k h in if is_probe e && str_eq (key_of e) k then t ∷ rest else rest

-- One call writes to the entry of the event's own key, if the event is a request for a suspicious path.
get-detect_web_scan :
    (k : String) (t : ℕ) (e : Event) (m : ScanMap)
    → get k (detect_web_scan t e m).0
      ≡ (if is_probe e && str_eq (key_of e) k then some (track t (get (key_of e) m)).0 else get k m)
unfolding detect_web_scan
get-detect_web_scan k t e m = elim (Bool-cases (is_probe e)) [
  | inl probe ↦ rw (probe, detect_web_scan) (get-put (key_of e) k (track t (get (key_of e) m)).0 m)
  | inr other ↦ rw (other, detect_web_scan)
]

tracks-round :
    (hit : Bool) (k j : String) (t : ℕ) (m : ScanMap) (h : List ℕ)
    → (hit ≡ true → j ≡ k)
    → get k m ≡ tracks h
    → (if hit then some (track t (get j m)).0 else get k m) ≡ tracks (if hit then t ∷ h else h)
unfolding tracks
tracks-round true k j t m h same ih =
    ap (λ (o : Option ScanTracker). some (track t o).0) (ap (λ i. get i m) (same refl) ∙ ih)
tracks-round false k j t m h same ih = ih

-- The map holds, at each key, what the probes under that key alone make of it.
pub get-scans_after : (k : String) (h : History) → get k (scans_after h) ≡ tracks (probes k h)
unfolding scans_after probes
get-scans_after k [] = unfold get tracks in refl
get-scans_after k ((t, e) ∷ h) =
    get-detect_web_scan k t e (scans_after h)
    ∙ tracks-round (is_probe e && str_eq (key_of e) k) k (key_of e) t (scans_after h) (probes k h)
        (λ both. (eq_iff (key_of e) k).0 (&&-split _ _ both).1) (get-scans_after k h)

-- An alert is raised for an event exactly if the event is an nginx request for one of the eight
-- suspicious paths and it is a fifth, tenth, … such request in an unbroken streak of its own key,
-- tenant and address; the alert names these. Events under other keys change nothing.
pub detect_web_scan_lem :
    (t : ℕ) (e : Event) (h : History)
    → (detect_web_scan t e (scans_after h)).1
      ≡ (if is_probe e && is_fifth (t ∷ probes (key_of e) h) then some (web_scan_alert e) else none)
unfolding detect_web_scan
detect_web_scan_lem t e h = elim (Bool-cases (is_probe e)) [
  | inl probe ↦ rw (probe, detect_web_scan) (rw (get-scans_after, tracks_lem) refl)
  | inr other ↦ rw (other, detect_web_scan)
]
