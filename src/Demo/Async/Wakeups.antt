-- ===== src/Demo/Async/Wakeups.antt =====
-- demo/demo_hook_async.c: the signal that `hook_enable` waits for, received and missed.
use libuiohook.Prelude.{
  ℕ, ◌≡◌, refl, sym, ◌∙◌, ap, Bool, true, false, List, [], ◌∷◌, Option, none, some, arith,
}
use libuiohook.Demo.Async.Runs.{every, run_keeps}
use libuiohook.Demo.Async.{
  free, by_main, by_hook, success, created, waiting, woken, relocked, joining, checked, returned,
  MainPlace, HookPlace, starting, enabling, signalled, working, stopping, stopped, ended, Demo,
  lock_control, wake, relock, try_running, join, unlock_control, lock_running, signal, release,
  end_signal, Action, enable, thread, enable_step, woken_by, hook_step, act, run,
}

-- The thread has not released the running mutex after its hook was stopped.
abbrev pub is_held_on : Action → Bool
is_held_on (thread release) = false
is_held_on a = true

-- `hook_enable` was woken and its test cannot but find the running mutex locked, or has found it so.
abbrev pub is_succeeding : MainPlace → Bool
is_succeeding woken = true
is_succeeding relocked = true
is_succeeding (checked success) = true
is_succeeding (returned success) = true
is_succeeding m = false

abbrev holds_running : HookPlace → Bool
holds_running signalled = true
holds_running working = true
holds_running stopping = true
holds_running h = false

record Succeeds (d : Demo) : Type 0 where
  succeeding : is_succeeding d.main ≡ true
  holds : holds_running d.hook ≡ true
  running : d.running ≡ by_hook

act-Succeeds :
    (answer : Option ℕ) (a : Action) (d d' : Demo)
    → is_held_on a ≡ true
    → Succeeds d
    → act answer a d ≡ some d'
    → Succeeds d'
unfolding act enable_step hook_step woken_by
act-Succeeds answer (enable unlock_control) d d' n m e = ground arith
act-Succeeds answer (enable c) d d' n m e = ground arith
act-Succeeds answer (thread c) d d' n m e = ground arith

-- Neither a wakeup without a signal nor the signal at the end of the thread.
abbrev pub is_quiet : Action → Bool
is_quiet (enable wake) = false
is_quiet (enable c) = true
is_quiet (thread end_signal) = false
is_quiet (thread c) = true

-- The thread has sent its first signal and not its last.
abbrev is_past_signal : HookPlace → Bool
is_past_signal signalled = true
is_past_signal working = true
is_past_signal stopping = true
is_past_signal stopped = true
is_past_signal ended = true
is_past_signal h = false

-- `hook_enable` has not been woken.
abbrev pub is_asleep : MainPlace → Bool
is_asleep created = true
is_asleep waiting = true
is_asleep m = false

record Missed (d : Demo) : Type 0 where
  asleep : is_asleep d.main ≡ true
  past : is_past_signal d.hook ≡ true

act-Missed :
    (answer : Option ℕ) (a : Action) (d d' : Demo)
    → is_quiet a ≡ true
    → Missed d
    → act answer a d ≡ some d'
    → Missed d'
unfolding act enable_step hook_step woken_by
act-Missed answer (enable lock_control) d d' n m e = ground arith
act-Missed answer (enable c) d d' n m e = ground arith
act-Missed answer (thread signal) d d' n m e = ground arith
act-Missed answer (thread c) d d' n m e = ground arith

-- The state after the first signal of the thread.
abbrev signal_sent : Demo → Demo
signal_sent d = record d { hook = signalled; main = woken_by d.main }

run-signal :
    (answer : Option ℕ) (schedule : List Action) (d : Demo)
    → d.hook ≡ enabling
    → run answer (thread signal ∷ schedule) d ≡ run answer schedule (signal_sent d)
unfolding run act hook_step
run-signal answer schedule d h = rw h refl

-- If the thread signals EVENT_HOOK_ENABLED when `hook_enable` has created it and does not wait yet, the
-- signal is missed: whatever both threads do from then on, and in whatever order, `hook_enable` does not
-- come past its wait until the thread signals again after `hook_run`, unless the condition is woken
-- without a signal.
pub run_missed :
    (answer : Option ℕ) (schedule : List Action) (before d : Demo)
    → before.main ≡ created
    → before.hook ≡ enabling
    → every is_quiet schedule ≡ true
    → run answer (thread signal ∷ schedule) before ≡ some d
    → is_asleep d.main ≡ true
unfolding woken_by
run_missed answer schedule before d m h n e =
    (run_keeps answer is_quiet Missed (act-Missed answer) schedule (signal_sent before) d n
      (record { asleep = ap (λ x. is_asleep (woken_by x)) m; past = refl })
      (sym (run-signal answer schedule before h) ∙ e)).asleep

-- If the thread, which has locked the running mutex, signals EVENT_HOOK_ENABLED when `hook_enable`
-- waits, then in every run in which the thread does not release that mutex `hook_enable` does not join
-- the thread, and returns no status but success.
pub run_enabled :
    (answer : Option ℕ) (schedule : List Action) (before d : Demo)
    → before.main ≡ waiting
    → before.hook ≡ enabling
    → before.running ≡ by_hook
    → every is_held_on schedule ≡ true
    → run answer (thread signal ∷ schedule) before ≡ some d
    → is_succeeding d.main ≡ true
unfolding woken_by
run_enabled answer schedule before d m h r n e =
    (run_keeps answer is_held_on Succeeds (act-Succeeds answer) schedule (signal_sent before) d n
      (record { succeeding = ap (λ x. is_succeeding (woken_by x)) m; holds = refl; running = r })
      (sym (run-signal answer schedule before h) ∙ e)).succeeding

-- `hook_enable` waits, and the thread has not yet come to its first event.
abbrev pub before_event : Demo
before_event = record {
  main = waiting;
  hook = starting;
  control = free;
  running = free;
  stored = none;
}

abbrev pub stuck : Demo
stuck = record {
  main = joining;
  hook = starting;
  control = by_main;
  running = by_main;
  stored = none;
}

-- A wakeup without a signal, before the thread comes to its first event, leads to a deadlock: `hook_enable`
-- locks the running mutex and waits for the end of the thread, which waits for that mutex. No
-- call of either thread can be made any more.
pub run_deadlock :
    (a : Action)
    → (run none (enable wake ∷ enable relock ∷ enable try_running ∷ []) before_event ≡ some stuck)
      × (act none a stuck ≡ none)
unfolding run act enable_step hook_step
run_deadlock (enable join) = (refl, refl)
run_deadlock (enable c) = (refl, refl)
run_deadlock (thread lock_running) = (refl, refl)
run_deadlock (thread c) = (refl, refl)
