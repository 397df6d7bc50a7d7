-- ===== src/Demo/Async/Outcomes.antt =====
-- demo/demo_hook_async.c: what `hook_enable` can return.
use mathlib.Core.Path.{subst}
use libuiohook.Prelude.{ℕ, ◌≡◌, refl, Bool, true, false, List, [], ◌∷◌, Option, none, some, arith}
use libuiohook.Demo.Async.Runs.{every, run_keeps}
use libuiohook.Demo.Async.{
  Holder, free, by_main, by_hook, Status, success, joined, not_created, MainPlace, start, locked,
  joining, checked, returned, HookPlace, absent, starting, enabling, signalled, working, stopping,
  ended, told, finished, Demo, initial, EnableCall, lock_control, create, ThreadCall, lock_running,
  Action, enable, thread, enable_step, woken_by, hook_step, act, run,
}

-- Whether the hook's thread holds the running mutex, is past the event EVENT_HOOK_ENABLED, and is past
-- `hook_run`.
abbrev pub holds_running : HookPlace → Bool
holds_running enabling = true
holds_running signalled = true
holds_running working = true
holds_running stopping = true
holds_running h = false

abbrev pub has_enabled : HookPlace → Bool
has_enabled absent = false
has_enabled starting = false
has_enabled h = true

abbrev past_run : HookPlace → Bool
past_run ended = true
past_run told = true
past_run finished = true
past_run h = false

-- What a status means: the event was delivered and `hook_run` did not fail; the thread is at its end,
-- and the value read is the error of `hook_run`, or was never assigned if that succeeded; or there
-- is no thread.
abbrev pub Outcome : Option ℕ → HookPlace → Status → Type 0
Outcome answer h success = (has_enabled h ≡ true) × (answer ≡ none)
Outcome answer h (joined v) = (h ≡ finished) × (v ≡ answer)
Outcome answer h not_created = h ≡ absent

abbrev is_main : Holder → Bool
is_main by_main = true
is_main r = false

abbrev MainFine : Option ℕ → HookPlace → Holder → MainPlace → Type 0
MainFine answer h r start = (h ≡ absent) × (r ≡ free)
MainFine answer h r locked = (h ≡ absent) × (r ≡ free)
MainFine answer h r (checked s) = Outcome answer h s
MainFine answer h r (returned s) = Outcome answer h s
MainFine answer h r joining = r ≡ by_main
MainFine answer h r m = is_main r ≡ false

-- On its way `hook_run` fails or succeeds, and what is stored is its error.
abbrev HookFine : Option ℕ → HookPlace → Option ℕ → Type 0
HookFine answer absent v = v ≡ none
HookFine answer starting v = v ≡ none
HookFine answer ended v = v ≡ answer
HookFine answer told v = v ≡ answer
HookFine answer finished v = v ≡ answer
HookFine answer h v = (v ≡ none) × (answer ≡ none)

record IsValid (answer : Option ℕ) (d : Demo) : Type 0 where
  main_fine : MainFine answer d.hook d.running d.main
  hook_fine : HookFine answer d.hook d.stored
  hook_runs : holds_running d.hook ≡ true → d.running ≡ by_hook
  runs_hook : d.running ≡ by_hook → holds_running d.hook ≡ true

enable-IsValid :
    (answer : Option ℕ) (c : EnableCall) (d d' : Demo)
    → IsValid answer d
    → enable_step c d ≡ some d'
    → IsValid answer d'
unfolding enable_step
enable-IsValid answer lock_control d d' v e = ground arith
enable-IsValid answer create d d' v e = ground arith
enable-IsValid answer c d d' v e = ground arith

hook-IsValid :
    (answer : Option ℕ) (c : ThreadCall) (d d' : Demo)
    → IsValid answer d
    → hook_step answer c d ≡ some d'
    → IsValid answer d'
unfolding hook_step woken_by
hook-IsValid answer lock_running d d' v e = ground arith
hook-IsValid answer c d d' v e = ground arith

act-IsValid :
    (answer : Option ℕ) (a : Action) (d d' : Demo)
    → IsValid answer d
    → act answer a d ≡ some d'
    → IsValid answer d'
unfolding act
act-IsValid answer (enable c) d d' v e = enable-IsValid answer c d d' v e
act-IsValid answer (thread c) d d' v e = hook-IsValid answer c d d' v e

abbrev any : Action → Bool
any a = true

every-any : (schedule : List Action) → every any schedule ≡ true
every-any [] = refl
every-any (a ∷ rest) = every-any rest

run-IsValid :
    (answer : Option ℕ) (schedule : List Action) (d d' : Demo)
    → IsValid answer d
    → run answer schedule d ≡ some d'
    → IsValid answer d'
run-IsValid answer schedule d d' =
    run_keeps answer any (IsValid answer) (λ a d d' allowed v e. act-IsValid answer a d d' v e)
      schedule d d' (every-any schedule)

initial-IsValid : (answer : Option ℕ) → IsValid answer initial
initial-IsValid answer = record {
  main_fine = (refl, refl);
  hook_fine = refl;
  hook_runs = λ h. cc;
  runs_hook = λ h. cc;
}

-- Whatever the order of the calls of both threads, and with wakeups of the condition without a signal,
-- `hook_enable` returns success only if EVENT_HOOK_ENABLED was delivered and `hook_run` does not
-- fail. If it returns what the thread stored, then the thread is at its end, and that is the error
-- of `hook_run`; but if `hook_run` succeeded, it is a variable that was never assigned. If it returns
-- that the thread was not created, there is none.
pub run-Outcome :
    (answer : Option ℕ) (schedule : List Action) (d : Demo) (s : Status)
    → run answer schedule initial ≡ some d
    → d.main ≡ returned s
    → Outcome answer d.hook s
run-Outcome answer schedule d s e at_end =
    subst (MainFine answer d.hook d.running) at_end
      (run-IsValid answer schedule initial d (initial-IsValid answer) e).main_fine
