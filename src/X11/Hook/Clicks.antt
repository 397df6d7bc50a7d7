-- ===== src/X11/Hook/Clicks.antt =====
-- src/x11/input_hook.c: the click count against an abstract history of button presses.
use libuiohook.Prelude.{
  ℕ, ◌+◌, ◌≡◌, Bool, ◌&&◌, List, [], ◌∷◌, arith, min, ltb, ◌==◌, if◌then◌else◌,
}
use libuiohook.X11.Hook.State.{HookState, set_modifier_mask}
use libuiohook.X11.Hook.Fire.{fire}
use libuiohook.X11.Hook.Buttons.{
  PointerInput, virtual_button, set_button_mask, is_multi_click, track_click, process_plain_press,
}

-- A press of a mapped button that is no wheel.
pub record Press : Type 0 where
  pub input : PointerInput
  pub map_button : ℕ

-- The presses, newest first.
unfoldable pub press_all : List Press → HookState → HookState
press_all [] s = s
press_all (p ∷ older) s = process_plain_press p.input p.map_button (press_all older s)

-- Whether a press continues the click before it: the same button, within the multi-click time.
abbrev pub continues : Press → Press → Bool
continues p q =
    virtual_button p.map_button == virtual_button q.map_button
    && is_multi_click p.input.time q.input.time p.input.multi_click_time

-- How many presses at the head of the history continue one another.
unfoldable pub streak : List Press → ℕ
streak [] = 0
streak (p ∷ []) = 1
streak (p ∷ q ∷ older) = let longer = streak (q ∷ older) + 1 in if continues p q then longer else 1

pub set_button_mask-clicks :
    (b : ℕ) (s : HookState)
    → ((set_button_mask b s).click_count ≡ s.click_count)
      × ((set_button_mask b s).click_time ≡ s.click_time)
      × ((set_button_mask b s).click_button ≡ s.click_button)
unfolding set_button_mask set_modifier_mask
set_button_mask-clicks b s = ground arith

-- The time and the button of a press are those of the last press.
press_last :
    (p : PointerInput) (b : ℕ) (s : HookState)
    → ((process_plain_press p b s).click_time ≡ p.time)
      × ((process_plain_press p b s).click_button ≡ virtual_button b)
unfolding process_plain_press fire track_click
press_last p b s = ground arith

press_count :
    (p : PointerInput) (b : ℕ) (s : HookState)
    → (process_plain_press p b s).click_count ≡ (
        if virtual_button b == s.click_button
          && is_multi_click p.time s.click_time p.multi_click_time
        then (if ltb s.click_count 65535 then s.click_count + 1 else s.click_count)
        else 1)
unfolding process_plain_press fire track_click
press_count p b s = ground (arith, set_button_mask-clicks b s)

-- The click count after a history of presses that began with no click: the streak at its end, with
-- the same button and each within the multi-click time of the one before, held at 65535.
pub press_all-streak :
    (p : Press) (older : List Press) (s : HookState)
    → s.click_count ≡ 0
    → (press_all (p ∷ older) s).click_count ≡ min (streak (p ∷ older)) 65535
unfolding press_all streak
press_all-streak p [] s h = ground (arith, press_count p.input p.map_button s)
press_all-streak p (q ∷ older) s h = ground (
  arith,
  press_count p.input p.map_button (press_all (q ∷ older) s),
  press_last q.input q.map_button (press_all older s),
  press_all-streak q older s h,
)
