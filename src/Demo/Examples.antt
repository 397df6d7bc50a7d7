-- ===== src/Demo/Examples.antt =====
-- The demo's protocol at concrete schedules.
use libuiohook.Prelude.{◌≡◌, refl, true, List, [], ◌∷◌, none}
use libuiohook.Demo.Async.{
  Holder, free, by_main, by_hook, success, joined, MainPlace, created, waiting, returned, enabling,
  stopping, stopped, finished, Demo, lock_control, create, wait, relock, try_running, join,
  unlock_control, lock_running, signal, unlock, stop, release, return_from_run, end_signal,
  end_unlock, Action, enable, thread, enable_step, woken_by, hook_step, act, run,
}
use libuiohook.Demo.Async.Outcomes.{Outcome, run-Outcome}
use libuiohook.Demo.Async.Wakeups.{is_succeeding, is_asleep, run_enabled, run_missed}

-- The thread signals before `hook_enable` waits, and the hook runs until it is stopped.
abbrev schedule : List Action
schedule =
    enable lock_control
    ∷ enable create
    ∷ thread lock_running
    ∷ thread signal
    ∷ enable wait
    ∷ thread unlock
    ∷ thread stop
    ∷ thread release
    ∷ thread return_from_run
    ∷ thread end_signal
    ∷ thread end_unlock
    ∷ enable relock
    ∷ enable try_running
    ∷ enable join
    ∷ enable unlock_control
    ∷ []

abbrev at_end : Demo
at_end = record {
  main = returned (joined none);
  hook = finished;
  control = free;
  running = by_main;
  stored = none;
}

run-Outcome_example : Outcome none finished (joined none)
unfolding run act enable_step hook_step woken_by
run-Outcome_example = run-Outcome none schedule at_end (joined none) refl refl

-- The thread comes to its first signal while `hook_enable` is in a place.
abbrev first_event : MainPlace → Holder → Demo
first_event place control = record {
  main = place;
  hook = enabling;
  control = control;
  running = by_hook;
  stored = none;
}

-- `hook_enable` returns, and then the hook is asked to stop.
abbrev stopped_later : List Action
stopped_later =
    thread unlock ∷ enable relock ∷ enable try_running ∷ enable unlock_control ∷ thread stop ∷ []

abbrev after_stop : Demo
after_stop = record {
  main = returned success;
  hook = stopping;
  control = by_hook;
  running = by_hook;
  stored = none;
}

run_enabled_example : is_succeeding after_stop.main ≡ true
unfolding run act enable_step hook_step woken_by
run_enabled_example =
    run_enabled none stopped_later (first_event waiting free) after_stop refl refl refl refl refl

-- The hook runs before `hook_enable` waits, and is stopped after.
abbrev too_early : List Action
too_early = thread unlock ∷ enable wait ∷ thread stop ∷ thread release ∷ []

abbrev still_waiting : Demo
still_waiting = record {
  main = waiting;
  hook = stopped;
  control = by_hook;
  running = free;
  stored = none;
}

run_missed_example : is_asleep still_waiting.main ≡ true
unfolding run act enable_step hook_step woken_by
run_missed_example =
    run_missed none too_early (first_event created by_main) still_waiting refl refl refl refl
