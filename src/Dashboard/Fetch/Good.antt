-- ===== src/Dashboard/Fetch/Good.antt =====
-- A run of `fetchData` whose five requests are all answered well (frontend/src/App.jsx).
use multi_tenant_siem.Base.{
  String, ◌≡◌, refl, ap, ◌∙◌, true, false, Option, none, some, List, [], ◌∷◌, arith, length,
  decimal, concat,
}
use multi_tenant_siem.Js.{Value, arr, array, truthy, or_else}
use multi_tenant_siem.Dashboard.State.{Dashboard, Browser, StatusSlice, no_traffic}
use multi_tenant_siem.Dashboard.Console.{add_console_log}
use multi_tenant_siem.Dashboard.Fetch
use multi_tenant_siem.Dashboard.Fetch.{
  Reply, response, parsed, array_or_member, map_or_throw, status_slice, Captured, Stage, traffic,
  status_codes, top_paths, attackers, resume,
}
use multi_tenant_siem.Dashboard.Fetch.Runs.{run_fetch}

abbrev pub good : Value → Reply
good v = response 200 (parsed v)

module _ (b : Browser) (c : Captured) where
  abbrev info : String → Dashboard → Dashboard
  info message d = add_console_log b message "INFO" d

  run_fetch-cons :
      (stage next : Stage) (r : Reply) (rs : List Reply) (d d' : Dashboard)
      → resume b c stage r d ≡ (d', some next)
      → run_fetch b c stage (r ∷ rs) d ≡ run_fetch b c next rs d'
  unfolding run_fetch
  run_fetch-cons stage next r rs d d' e =
      rw (e, run_fetch) (ap (λ (p : Dashboard × Option Stage). run_fetch b c next rs p.0) e)

  run_fetch-last :
      (stage : Stage) (r : Reply) (d d' : Dashboard)
      → resume b c stage r d ≡ (d', none)
      → run_fetch b c stage (r ∷ []) d ≡ some d'
  unfolding run_fetch
  run_fetch-last stage r d d' e =
      rw (e, run_fetch) (ap (λ (p : Dashboard × Option Stage). some p.0) e)

  good_status_codes :
      (x : Value) (slices : List StatusSlice) (d : Dashboard)
      → map_or_throw status_slice (array_or_member "status_codes" x) ≡ some slices
      → resume b c status_codes (good x) d ≡ (
        info "Compiled status code distributions" (record d { status_code_analytics = slices }),
        some top_paths,
      )
  unfolding resume
  good_status_codes x slices d e = ground arith

  abbrev with_attackers : Value → Dashboard → Dashboard
  with_attackers z d =
      let valid = array_or_member "attackers" z in
      info (concat ("Identified " ∷ decimal (length valid) ∷ " top threat actors" ∷ []))
        (record d { attackers = arr (array valid) })

  good_attackers :
      (z : Value) (d : Dashboard)
      → truthy c.selected_attacker_ip ≡ true
      → resume b c attackers (good z) d ≡ (record (with_attackers z d) { loading = false }, none)
  unfolding resume add_console_log
  good_attackers z d chosen = ground arith

-- Five good answers, where the items of the status codes are objects and an attacker was selected
-- when the run began: the page has the data of each of the five bodies, the selection and the toast
-- are what they were, and `loading` is reset.
pub run_fetch-good :
    (b : Browser) (c : Captured) (v w x y z : Value) (slices : List StatusSlice) (d : Dashboard)
    → truthy c.selected_attacker_ip ≡ true
    → map_or_throw status_slice (array_or_member "status_codes" x) ≡ some slices
    → (d' : Dashboard) × (run_fetch b c Fetch.alerts
          (good v ∷ good w ∷ good x ∷ good y ∷ good z ∷ [])
          d
        ≡ some d')
      × (d'.alerts ≡ array_or_member "alerts" v)
      × (d'.traffic_analytics ≡ or_else w no_traffic)
      × (d'.status_code_analytics ≡ slices)
      × (d'.top_paths ≡ array_or_member "paths" y)
      × (d'.attackers ≡ arr (array (array_or_member "attackers" z)))
      × (d'.selected_attacker_ip ≡ d.selected_attacker_ip)
      × (d'.toast ≡ d.toast)
      × (d'.loading ≡ false)
unfolding resume add_console_log
run_fetch-good b c v w x y z slices d chosen slicing =
    let d2 = (resume b c traffic (good w) (resume b c Fetch.alerts (good v) d).0).0 in
    let d3 =
      add_console_log b "Compiled status code distributions" "INFO"
        (record d2 { status_code_analytics = slices }) in
    let d4 = (resume b c top_paths (good y) d3).0 in
    (
      record (with_attackers b c z d4) { loading = false },
      run_fetch-cons b c _ traffic _ _ _ _ refl
          ∙ run_fetch-cons b c _ status_codes _ _ _ d2 refl
          ∙ run_fetch-cons b c _ top_paths _ _ _ d3 (good_status_codes b c x slices d2 slicing)
          ∙ run_fetch-cons b c _ attackers _ _ _ d4 refl
          ∙ run_fetch-last b c attackers (good z) d4 _ (good_attackers b c z d4 chosen),
      refl,
      refl,
      refl,
      refl,
      refl,
      refl,
      refl,
      refl,
    )
