-- ===== src/Windows/Post/Laws.antt =====
-- src/windows/post_event.c: the flags of a posted key, the buttons, and the event left behind.
use libuiohook.Prelude.{ℕ, ◌≡◌, ◌≢◌, Bool, true, false, ◌&&◌, not, arith, ◌==◌, if◌then◌else◌}
use libuiohook.Event.{EventType, mouse_pressed, mouse_released}
use libuiohook.Windows.Post.{
  PostedEvent, PostAnswers, extra_data, press_flags, release_flags, post_button, post_by_type,
  hook_post_event,
}

-- Different buttons are posted differently: their presses differ in the flags or in `mouseData`, and
-- so do their releases.
pub button_flags_ne :
    (b c : ℕ) → b ≢ c → (press_flags b ≢ press_flags c) × (release_flags b ≢ release_flags c)
unfolding press_flags release_flags extra_data
button_flags_ne b c h = ground arith

abbrev pub is_release : EventType → Bool
is_release mouse_released = true
is_release _ = false

-- Posting leaves the type of the caller's event as it was, but for one case: the posted release of a
-- button, whose type becomes `mouse_pressed`.
pub hook_post_event_type :
    (a : PostAnswers) (e : PostedEvent)
    → (hook_post_event a e).1 ≡ (
        if a.allocated && is_release e.type && not (e.mouse.button == 0)
        then mouse_pressed
        else e.type)
unfolding hook_post_event post_by_type post_button press_flags release_flags
hook_post_event_type a e = ground arith
