-- ===== src/Dashboard/Session/Tidy.antt =====
-- The console and the toasts in a session of the page (frontend/src/App.jsx).
use multi_tenant_siem.Base.{
  take_last, length-take_last, length-append, ℕ, ◌+◌, ◌≤◌, String, ◌≡◌, refl, ap, inl, inr, Bool,
  true, false, not, Option, none, some, List, [], ◌∷◌, ◌++◌, arith, leb, if◌then◌else◌, Bool-cases,
  Option-cases, length, any, keep, All, is_empty, All-keep_of_All,
}
use multi_tenant_siem.Js.{Value}
use multi_tenant_siem.Dashboard.State.{Dashboard, Browser, Toast}
use multi_tenant_siem.Dashboard.Console.{trigger_toast, run_timers, add_console_log, toast_ms}
use multi_tenant_siem.Dashboard.Fetch.{
  Reply, Stage, alerts, traffic, status_codes, top_paths, attackers, Captured, resume, fetch_failed,
  begin_fetch,
}
use multi_tenant_siem.Dashboard.Feed.{log_alerts, on_message, on_open, on_error, on_close}
use multi_tenant_siem.Dashboard.Counters.{
  fetch_traffic_analytics, fetch_status_code_analytics, fetch_attackers,
}
use multi_tenant_siem.Dashboard.Session.{
  Session, Input, on_click, on_no_socket, choose_tenant, run_effect, mount, step, answer,
  start_fetch, switch_tenant, task_at,
}
use multi_tenant_siem.Dashboard.Session.Tenants.{play}

-- A toast that is shown has a timer that will take it off.
abbrev HasTimer : Option Toast → List ℕ → Type 0
HasTimer none timers = Unit
HasTimer (some toast) timers = is_empty timers ≡ false

-- The timers are due by a time.
abbrev pub AreSoon : ℕ → List ℕ → Type 0
AreSoon last timers = All (λ t. t ≤ last + toast_ms) timers

-- The console has at most 36 lines, no toast is shown without a timer, and the timers were set by the
-- time `last`.
pub record IsTidy (last : ℕ) (d : Dashboard) : Type 0 where
  pub bound : length d.console_logs ≤ 36
  pub timer : HasTimer d.toast d.timers
  pub soon : AreSoon last d.timers

logged : (logs : List String) (line : String) → length (take_last 35 logs ++ line ∷ []) ≤ 36
logged logs line =
    omega (arith, length-append (take_last 35 logs) (line ∷ []), length-take_last 35 logs)

is_empty-snoc : (ts : List ℕ) (t : ℕ) → is_empty (ts ++ t ∷ []) ≡ false
is_empty-snoc [] t = refl
is_empty-snoc (u ∷ ts) t = refl

AreSoon-snoc :
    (last : ℕ) (ts : List ℕ) (now : ℕ)
    → AreSoon last ts
    → now ≤ last
    → AreSoon last (ts ++ (now + toast_ms) ∷ [])
AreSoon-snoc last [] now h within = (omega arith, tt)
AreSoon-snoc last (t ∷ ts) now (one, h) within = (one, AreSoon-snoc last ts now h within)

module _ (last : ℕ) where
  keep_none_due : (q : ℕ → Bool) (ts : List ℕ) → any q ts ≡ false → keep (λ t. not (q t)) ts ≡ ts
  keep_none_due q [] h = refl
  keep_none_due q (t ∷ ts) h = elim (Bool-cases (q t)) [
    | inl due ↦ absurd (ground arith)
    | inr later ↦ rw later (ap (◌∷◌ t) (keep_none_due q ts (ground arith)))
  ]

  run_timers-IsTidy : (now : ℕ) (d : Dashboard) → IsTidy last d → IsTidy last (run_timers now d)
  unfolding run_timers
  run_timers-IsTidy now d h = elim (Bool-cases (any (λ t. leb t now) d.timers)) [
    | inl due ↦ record {
      bound = h.bound;
      timer = rw due tt;
      soon = All-keep_of_All (λ t. t ≤ last + toast_ms) _ d.timers h.soon;
    }
    | inr later ↦ record {
      bound = h.bound;
      timer = rw later (rw (keep_none_due (λ t. leb t now) d.timers later) h.timer);
      soon = All-keep_of_All (λ t. t ≤ last + toast_ms) _ d.timers h.soon;
    }
  ]

  log_alerts-IsTidy :
      (b : Browser) (vs : List Value) (d : Dashboard)
      → IsTidy last d
      → IsTidy last (log_alerts b vs d)
  unfolding log_alerts add_console_log
  log_alerts-IsTidy b [] d h = h
  log_alerts-IsTidy b (v ∷ vs) d h =
      log_alerts-IsTidy b vs _
        (record { bound = grind (arith, logged); timer = h.timer; soon = h.soon })

  on_message-IsTidy :
      (b : Browser) (key : String) (p : Option Value) (d : Dashboard)
      → IsTidy last d
      → IsTidy last (on_message b key p d)
  unfolding on_message add_console_log
  on_message-IsTidy b key none d h = grind (arith, logged)
  on_message-IsTidy b key (some v) d h = grind (arith, logged, log_alerts-IsTidy)

  resume-IsTidy :
      (b : Browser) (c : Captured) (stage : Stage) (r : Reply) (d : Dashboard)
      → b.ms ≤ last
      → IsTidy last d
      → IsTidy last (resume b c stage r d).0
  unfolding resume add_console_log trigger_toast fetch_failed
  resume-IsTidy b c alerts r d now h = grind (arith, logged, is_empty-snoc, AreSoon-snoc)
  resume-IsTidy b c traffic r d now h = grind (arith, logged, is_empty-snoc, AreSoon-snoc)
  resume-IsTidy b c status_codes r d now h = grind (arith, logged, is_empty-snoc, AreSoon-snoc)
  resume-IsTidy b c top_paths r d now h = grind (arith, logged, is_empty-snoc, AreSoon-snoc)
  resume-IsTidy b c attackers r d now h = grind (arith, logged, is_empty-snoc, AreSoon-snoc)

  answer-IsTidy :
      (b : Browser) (i : ℕ) (r : Reply) (s : Session)
      → b.ms ≤ last
      → IsTidy last s.page
      → IsTidy last (answer b i r s).page
  unfolding answer
  answer-IsTidy b i r s now h = elim (Option-cases (task_at i s.tasks)) [
    | inl nobody ↦ rw (nobody, answer) h
    | inr (t, found) ↦ rw (found, answer) (resume-IsTidy b t.captured t.stage r s.page now h)
  ]

  switch_tenant-IsTidy :
      (b : Browser) (ws tenant : String) (s : Session)
      → b.ms ≤ last
      → IsTidy last s.page
      → IsTidy last (switch_tenant b ws tenant s).page
  unfolding switch_tenant choose_tenant run_effect start_fetch begin_fetch add_console_log
      trigger_toast
  switch_tenant-IsTidy b ws tenant s now h = grind (arith, logged, is_empty-snoc, AreSoon-snoc)

  step-IsTidy :
      (b : Browser) (ws : String) (input : Input) (s : Session)
      → b.ms ≤ last
      → IsTidy last s.page
      → IsTidy last (step b ws input s).page
  unfolding step add_console_log trigger_toast start_fetch begin_fetch on_open on_error on_close
      on_no_socket on_click fetch_traffic_analytics fetch_status_code_analytics fetch_attackers
  step-IsTidy b ws (Input.answered i r) s now h = answer-IsTidy b i r s now h
  step-IsTidy b ws (Input.packet p) s now h = on_message-IsTidy b s.socket_key p s.page h
  step-IsTidy b ws Input.timers_due s now h = run_timers-IsTidy b.ms s.page h
  step-IsTidy b ws (Input.switch tenant) s now h = switch_tenant-IsTidy b ws tenant s now h
  step-IsTidy b ws Input.refresh s now h = grind (arith, logged, is_empty-snoc, AreSoon-snoc)
  step-IsTidy b ws (Input.click c) s now h = grind (arith, logged, is_empty-snoc, AreSoon-snoc)
  step-IsTidy b ws input s now h = grind (arith, logged, is_empty-snoc, AreSoon-snoc)

  steps-IsTidy :
      (ws : String) (inputs : List (Browser × Input)) (s : Session)
      → All (λ (x : Browser × Input). x.0.ms ≤ last) inputs
      → IsTidy last s.page
      → IsTidy last (play ws inputs s).page
  unfolding play
  steps-IsTidy ws [] s before h = h
  steps-IsTidy ws ((b, input) ∷ rest) s (now, before) h =
      steps-IsTidy ws rest (step b ws input s) before (step-IsTidy b ws input s now h)

  some_due :
      (now : ℕ) (ts : List ℕ)
      → All (λ t. t ≤ now) ts
      → is_empty ts ≡ false
      → any (λ t. leb t now) ts ≡ true
  some_due now [] due h = absurd (cc h)
  some_due now (t ∷ ts) (due, more) h = ground arith

  weaker_due :
      (now : ℕ) (ts : List ℕ) → last + toast_ms ≤ now → AreSoon last ts → All (λ t. t ≤ now) ts
  weaker_due now [] late h = tt
  weaker_due now (t ∷ ts) late (one, h) = (omega arith, weaker_due now ts late h)

  run_timers-clears :
      (now : ℕ) (d : Dashboard)
      → last + toast_ms ≤ now
      → IsTidy last d
      → (run_timers now d).toast ≡ none
  unfolding run_timers
  run_timers-clears now d late h = cleared d.toast h.timer
    where
      cleared :
          (toast : Option Toast)
          → HasTimer toast d.timers
          → (if any (λ t. leb t now) d.timers then none else toast) ≡ none
      cleared none timer = ground arith
      cleared (some toast) timer =
          rw (some_due now d.timers (weaker_due now d.timers late h.soon) timer) refl

-- From the mounted page on, in every run of answers, packets, clicks and timers, whatever they bring,
-- if the clock shows no later time than `last` in it: the console holds at most 36 lines, a toast that
-- is shown has a timer that is yet to run, and every timer is due at most 4.5 seconds after `last`; so
-- when the timers that are due then run, no toast is left.
pub play-IsTidy :
    (last : ℕ) (b : Browser) (ws : String) (inputs : List (Browser × Input)) (now : ℕ)
    → All (λ (x : Browser × Input). x.0.ms ≤ last) inputs
    → last + toast_ms ≤ now
    → IsTidy last (play ws inputs (mount b ws)).page
      × ((run_timers now (play ws inputs (mount b ws)).page).toast ≡ none)
unfolding mount run_effect start_fetch begin_fetch add_console_log
play-IsTidy last b ws inputs now before late =
    let h =
      steps-IsTidy last ws inputs (mount b ws) before
        (record { bound = omega arith; timer = tt; soon = tt }) in
    (h, run_timers-clears last now (play ws inputs (mount b ws)).page late h)
