-- ===== src/Demo/Async.antt =====
-- demo/demo_hook_async.c: the protocol between `hook_enable` and the thread of the hook, as POSIX threads
-- run it, in steps of one call that another thread can observe.
mod Runs
pub mod Outcomes
pub mod Wakeups
use libuiohook.Prelude.{ℕ, Bool, true, false, List, [], ◌∷◌, Option, none, some}

pub data Holder : Type 0 where
  free by_main by_hook : Holder

-- The status of `hook_enable`: UIOHOOK_SUCCESS, what the thread stored, where it is `none` if nothing
-- was, or UIOHOOK_ERROR_THREAD_CREATE.
pub data Status : Type 0 where
  success : Status
  joined : Option ℕ → Status
  not_created : Status

-- Where `hook_enable` is: before its lock, with the lock, after creating the thread, in the wait for the
-- condition, woken but without the lock, with the lock again, in the join, and after its test.
pub data MainPlace : Type 0 where
  start locked created waiting woken relocked joining : MainPlace
  checked returned : Status → MainPlace

-- Where the hook's thread is: not created, in `hook_run` before the first event, after each of the calls
-- for EVENT_HOOK_ENABLED, in the loop over events, after each of those for EVENT_HOOK_DISABLED, after
-- `hook_run`, after the last signal, and at its end.
pub data HookPlace : Type 0 where
  absent starting enabling signalled working stopping stopped ended told finished : HookPlace

-- `hook_control_mutex`, `hook_running_mutex` and `*hook_thread_status`, none while it is not assigned.
pub record Demo : Type 0 where
  pub main : MainPlace
  pub hook : HookPlace
  pub control : Holder
  pub running : Holder
  pub stored : Option ℕ

abbrev pub initial : Demo
initial = record { main = start; hook = absent; control = free; running = free; stored = none }

-- The calls of `hook_enable`, `wake` being a wakeup of the condition without a signal; those of the
-- hook's thread; and a call of one of the two.
pub data EnableCall : Type 0 where
  lock_control create refuse wait wake relock try_running join unlock_control : EnableCall

pub data ThreadCall : Type 0 where
  lock_running signal unlock stop release return_from_run fail end_signal end_unlock : ThreadCall

pub data Action : Type 0 where
  enable : EnableCall → Action
  thread : ThreadCall → Action

-- The steps of `hook_enable`; `none` where the call is not next or has to wait.
unfoldable pub enable_step : EnableCall → Demo → Option Demo
enable_step lock_control d = elim d.main [
  | start ↦ elim d.control [
    | free ↦ some (record d { main = locked; control = by_main })
    | _ ↦ none
  ]
  | _ ↦ none
]
enable_step create d = elim d.main [
  | locked ↦ some (record d { main = created; hook = starting })
  | _ ↦ none
]
enable_step refuse d = elim d.main [
  | locked ↦ some (record d { main = checked not_created })
  | _ ↦ none
]
enable_step wait d = elim d.main [
  | created ↦ some (record d { main = waiting; control = free })
  | _ ↦ none
]
enable_step wake d = elim d.main [ waiting ↦ some (record d { main = woken }) | _ ↦ none ]
enable_step relock d = elim d.main [
  | woken ↦ elim d.control [
    | free ↦ some (record d { main = relocked; control = by_main })
    | _ ↦ none
  ]
  | _ ↦ none
]
enable_step try_running d = elim d.main [
  | relocked ↦ elim d.running [
    | free ↦ some (record d { main = joining; running = by_main })
    | _ ↦ some (record d { main = checked success })
  ]
  | _ ↦ none
]
enable_step join d = elim d.main [
  | joining ↦ elim d.hook [
    | finished ↦ some (record d { main = checked (joined d.stored) })
    | _ ↦ none
  ]
  | _ ↦ none
]
enable_step unlock_control d = elim d.main [
  | checked s ↦ some (record d { main = returned s; control = free })
  | _ ↦ none
]

-- `pthread_cond_signal`: a signal that nobody waits for is lost.
unfoldable pub woken_by : MainPlace → MainPlace
woken_by waiting = woken
woken_by m = m

-- The steps of the hook's thread, where `hook_run` fails with the error `answer` or succeeds. The control
-- mutex is unlocked by this thread whoever holds it.
unfoldable pub hook_step : Option ℕ → ThreadCall → Demo → Option Demo
hook_step answer lock_running d = elim d.hook [
  | starting ↦ elim answer [
    | none ↦ elim d.running [
      | free ↦ some (record d { hook = enabling; running = by_hook })
      | _ ↦ none
    ]
    | some e ↦ none
  ]
  | _ ↦ none
]
hook_step answer signal d = elim d.hook [
  | enabling ↦ some (record d { hook = signalled; main = woken_by d.main })
  | _ ↦ none
]
hook_step answer unlock d = elim d.hook [
  | signalled ↦ some (record d { hook = working; control = free })
  | _ ↦ none
]
hook_step answer stop d = elim d.hook [
  | working ↦ elim d.control [
    | free ↦ some (record d { hook = stopping; control = by_hook })
    | _ ↦ none
  ]
  | _ ↦ none
]
hook_step answer release d = elim d.hook [
  | stopping ↦ some (record d { hook = stopped; running = free })
  | _ ↦ none
]
hook_step answer return_from_run d = elim d.hook [
  | stopped ↦ some (record d { hook = ended })
  | _ ↦ none
]
hook_step answer fail d = elim d.hook [
  | starting ↦ elim answer [
    | none ↦ none
    | some e ↦ some (record d { hook = ended; stored = some e })
  ]
  | _ ↦ none
]
hook_step answer end_signal d = elim d.hook [
  | ended ↦ some (record d { hook = told; main = woken_by d.main })
  | _ ↦ none
]
hook_step answer end_unlock d = elim d.hook [
  | told ↦ some (record d { hook = finished; control = free })
  | _ ↦ none
]

unfoldable pub act : Option ℕ → Action → Demo → Option Demo
act answer (enable c) d = enable_step c d
act answer (thread c) d = hook_step answer c d

-- A schedule of calls, none of which has to wait.
unfoldable pub run : Option ℕ → List Action → Demo → Option Demo
run answer [] d = some d
run answer (a ∷ rest) d = elim (act answer a d) [ none ↦ none | some d' ↦ run answer rest d' ]
