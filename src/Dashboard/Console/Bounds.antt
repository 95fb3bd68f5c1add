-- ===== src/Dashboard/Console/Bounds.antt =====
-- The console of frontend/src/App.jsx is bounded; how long a toast stays.
use multi_tenant_siem.Base.{
  ℕ, ◌+◌, ◌≤◌, ◌<◌, min, String, ◌≡◌, refl, none, List, [], ◌∷◌, ◌++◌, arith, leb, any, any-append,
  length, length-append, length-take_last, take_last, concat, true,
}
use multi_tenant_siem.Dashboard.State.{Dashboard, Browser}
use multi_tenant_siem.Dashboard.Console.{trigger_toast, run_timers, add_console_log, toast_ms}

-- A new entry is the last line of the console, the lines before it are the last 35 that were there,
-- and so the console holds at most 36 lines whatever it held before.
pub add_console_log-length :
    (b : Browser) (message level : String) (d : Dashboard)
    → (lines : List String) × ((add_console_log b message level d).console_logs
        ≡ lines ++ concat ("[" ∷ b.time_text ∷ "] [" ∷ level ∷ "] " ∷ message ∷ []) ∷ [])
      × (lines ≡ take_last 35 d.console_logs)
      × (length (add_console_log b message level d).console_logs
          ≡ min 35 (length d.console_logs) + 1)
unfolding add_console_log
add_console_log-length b message level d = (
  take_last 35 d.console_logs,
  refl,
  refl,
  omega (
    arith,
    length-append (take_last 35 d.console_logs)
        (concat ("[" ∷ b.time_text ∷ "] [" ∷ level ∷ "] " ∷ message ∷ []) ∷ []),
    length-take_last 35 d.console_logs,
  ),
)

any_due_last : (now t : ℕ) (ts : List ℕ) → t ≤ now → any (λ u. leb u now) (ts ++ t ∷ []) ≡ true
any_due_last now t ts h = rw any-append (ground arith)

-- A toast is gone once its 4.5 seconds have passed, if no other follows it.
pub run_timers-trigger_toast :
    (b : Browser) (message type : String) (d : Dashboard) (now : ℕ)
    → b.ms + toast_ms ≤ now
    → (run_timers now (trigger_toast b message type d)).toast ≡ none
unfolding run_timers trigger_toast
run_timers-trigger_toast b message type d now h = rw (any_due_last now (b.ms + toast_ms) d.timers h)

any_due_before :
    (now t u : ℕ) (ts : List ℕ) → t ≤ now → any (λ v. leb v now) ((ts ++ t ∷ []) ++ u ∷ []) ≡ true
any_due_before now t u ts h = rw (any-append, any_due_last now t ts h)

-- The timer of an earlier toast clears a later one: of two toasts less than 4.5 seconds apart, the
-- second is gone 4.5 seconds after the first, before its own time is up.
pub toast_cut_short :
    (b c : Browser) (m n : String) (s t : String) (d : Dashboard)
    → b.ms < c.ms
    → c.ms < b.ms + toast_ms
    → ((run_timers (b.ms + toast_ms) (trigger_toast c n t (trigger_toast b m s d))).toast ≡ none)
      × (b.ms + toast_ms < c.ms + toast_ms)
unfolding run_timers trigger_toast
toast_cut_short b c m n s t d later within = (
  rw (any_due_before (b.ms + toast_ms) (b.ms + toast_ms) (c.ms + toast_ms) d.timers (omega arith)),
  omega arith,
)
