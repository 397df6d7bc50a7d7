-- ===== src/X11/Hook/Frame.antt =====
-- src/x11/input_hook.c: the tracked input around the firing of an event.
use libuiohook.Prelude.{ℕ, ◌≡◌, refl, ◌∙◌, List, [], ◌∷◌, if_both}
use libuiohook.Event.{EventType, EventData, key_typed}
use libuiohook.X11.Hook.State.{HookState}
use libuiohook.X11.Hook.Fire.{fire, not_consumed}
use libuiohook.X11.Hook.Keys.{
  KeyInput, key_units, fire_typed, process_key_press, key_press_state, process_key_release,
  key_release_state,
}

-- The tracked input, without the session.
pub record SameInput (s t : HookState) : Type 0 where
  pub mask : s.mask ≡ t.mask
  pub is_dragged : s.is_dragged ≡ t.is_dragged
  pub click_count : s.click_count ≡ t.click_count
  pub click_time : s.click_time ≡ t.click_time
  pub click_button : s.click_button ≡ t.click_button
  pub helper : s.helper ≡ t.helper

pub fire-SameInput :
    (type : EventType) (time : ℕ) (p : EventData) (s : HookState) → SameInput (fire type time p s) s
unfolding fire
fire-SameInput type time p s = record {
  mask = refl;
  is_dragged = refl;
  click_count = refl;
  click_time = refl;
  click_button = refl;
  helper = refl;
}

SameInput-trans : {s t u : HookState} → SameInput s t → SameInput t u → SameInput s u
SameInput-trans a b = record {
  mask = a.mask ∙ b.mask;
  is_dragged = a.is_dragged ∙ b.is_dragged;
  click_count = a.click_count ∙ b.click_count;
  click_time = a.click_time ∙ b.click_time;
  click_button = a.click_button ∙ b.click_button;
  helper = a.helper ∙ b.helper;
}

SameInput-refl : (s : HookState) → SameInput s s
SameInput-refl s = record {
  mask = refl;
  is_dragged = refl;
  click_count = refl;
  click_time = refl;
  click_button = refl;
  helper = refl;
}

pub fire_typed-SameInput :
    (k : KeyInput) (units : List ℕ) (s : HookState) → SameInput (fire_typed k units s) s
unfolding fire_typed
fire_typed-SameInput k [] s = SameInput-refl s
fire_typed-SameInput k (u ∷ units) s =
    SameInput-trans (fire_typed-SameInput k units _) (fire-SameInput key_typed k.time _ s)

-- A key event changes the tracked input before it is fired, and no more.
pub process_key_press-SameInput :
    (k : KeyInput) (s : HookState) → SameInput (process_key_press k s) (key_press_state k s)
unfolding process_key_press
process_key_press-SameInput k s =
    let fired = fire-SameInput _ _ _ (key_press_state k s) in
    if_both (λ t. SameInput t (key_press_state k s)) (not_consumed _)
      (SameInput-trans (fire_typed-SameInput k (key_units k) _) fired) fired

pub process_key_release-SameInput :
    (k : KeyInput) (s : HookState) → SameInput (process_key_release k s) (key_release_state k s)
unfolding process_key_release
process_key_release-SameInput k s = fire-SameInput _ _ _ _
