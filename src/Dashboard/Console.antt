-- ===== src/Dashboard/Console.antt =====
-- `triggerToast` and `addConsoleLog` of frontend/src/App.jsx, and the timers of the toasts.
pub mod Bounds
use multi_tenant_siem.Base.{
  ℕ, ◌+◌, String, not, Option, none, some, List, [], ◌∷◌, ◌++◌, leb, any, keep, take_last, concat,
  if◌then◌else◌,
}
use multi_tenant_siem.Dashboard.State.{Dashboard, Browser}

-- `setTimeout(() => setToast(null), 4500)`
abbrev pub toast_ms : ℕ
toast_ms = 4500

unfoldable pub trigger_toast : Browser → String → String → Dashboard → Dashboard
trigger_toast b message type d = record d {
  toast = some (record { message = message; type = type });
  timers = d.timers ++ (b.ms + toast_ms) ∷ [];
}

-- The timers that are due by `now` run: each clears the toast, whichever it is.
unfoldable pub run_timers : ℕ → Dashboard → Dashboard
run_timers now d = record d {
  toast = if any (λ t. leb t now) d.timers then none else d.toast;
  timers = keep (λ t. not (leb t now)) d.timers;
}

unfoldable pub add_console_log : Browser → String → String → Dashboard → Dashboard
add_console_log b message level d = record d {
  console_logs =
      take_last 35 d.console_logs
      ++ concat ("[" ∷ b.time_text ∷ "] [" ∷ level ∷ "] " ∷ message ∷ []) ∷ [];
}
