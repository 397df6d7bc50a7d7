-- ===== src/Darwin/Run/Leak.antt =====
-- src/darwin/input_hook.c: what `hook_run` leaves behind where a message cannot be allocated.
use libuiohook.Prelude.{ℕ, ◌≡◌, refl, ◌∙◌, ap, Bool, true, false, ◌&&◌, none, some, arith}
use libuiohook.Event.{uiohook_failure}
use libuiohook.Darwin.Run.{
  World, RunAnswers, create_event_runloop_info, destroy_event_runloop_info, allocate_messages,
  start_hook, hook_run,
}
use libuiohook.Darwin.Run.Laws.{full, all_created}
use libuiohook.Darwin.Run.Release.{created_start}

abbrev pub can_start : RunAnswers → Bool
can_start a = a.accessible && a.has_loop

without_message :
    (a : RunAnswers) (w : World)
    → (a.keycode_allocated && a.event_allocated) ≡ false
    → (allocate_messages a w).0.hook ≡ w.hook
unfolding allocate_messages
without_message a w h = ground arith

start_lem : (a : RunAnswers) (w : World) → can_start a ≡ true → hook_run a w ≡ start_hook a w
unfolding hook_run
start_lem a w h = ground arith

second_run :
    (b : RunAnswers) (w : World)
    → w.hook ≡ some full
    → ((start_hook b w).1 ≡ uiohook_failure) × ((start_hook b w).0.hook ≡ none)
unfolding start_hook create_event_runloop_info destroy_event_runloop_info
second_run b w h = rw h (refl, refl)

-- On macOS, if the hook is created but one of the two messages is not allocated, the hook stays: the next
-- `hook_run` that is allowed to start fails with the general failure, whatever the system answers it,
-- and removes the hook.
pub hook_run_after_leak :
    (a b : RunAnswers) (w : World)
    → w.hook ≡ none
    → can_start a ≡ true
    → all_created a ≡ true
    → (a.keycode_allocated && a.event_allocated) ≡ false
    → can_start b ≡ true
    → ((hook_run b (hook_run a w).0).1 ≡ uiohook_failure)
      × ((hook_run b (hook_run a w).0).0.hook ≡ none)
hook_run_after_leak a b w h c k l t =
    let first = start_lem a w c ∙ created_start a w h k in
    let (status, hook) =
      second_run b (hook_run a w).0
        (ap (λ (z : World × ℕ). z.0.hook) first ∙ without_message a _ l) in
    let second = start_lem b (hook_run a w).0 t in
    (ap (λ (z : World × ℕ). z.1) second ∙ status, ap (λ (z : World × ℕ). z.0.hook) second ∙ hook)
