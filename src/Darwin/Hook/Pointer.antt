-- ===== src/Darwin/Hook/Pointer.antt =====
-- src/darwin/input_hook.c: which events the callback receives for extra mouse buttons and after a drag.
use mathlib.Core.Path.{ap₂}
use libuiohook.Prelude.{
  ℕ, ◌+◌, ◌<◌, ◌≡◌, ◌≢◌, refl, ◌∙◌, ap, sym, map, Bool, true, ◌&&◌, ◌||◌, List, ◌∷◌, some, ◌==◌,
  arith, if◌then◌else◌, not, leb_ℤ,
}
use libuiohook.Event.{EventType, UiohookEvent, mouse, mouse_clicked, mouse_pressed, mouse_released}
use libuiohook.Dispatch.{Dispatcher}
use libuiohook.Darwin.Hook.State.{
  HookState, set_modifier_mask, unset_modifier_mask, fire, fresh_event, not_consumed,
}
use libuiohook.Darwin.Hook.Mouse.{
  MouseInput, elapsed, is_multi_click, mouse_data, track_click, process_button_pressed,
  fire_clicked, reset_after_release, process_button_released,
}
use libuiohook.Darwin.Hook.Proc.{set_extra, unset_extra, process_other_down, process_other_up}
use libuiohook.Darwin.Hook.Sent.{fire_sent, choose}

-- The state after a button is counted and its mask given, and what is sent for it.
abbrev pub press_event : MouseInput → ℕ → HookState → UiohookEvent
press_event p b s = fresh_event mouse_pressed p.time (mouse (mouse_data p b s)) s

set_extra-rest :
    (b : ℕ) (s : HookState)
    → ((set_extra b s).session ≡ s.session) × ((set_extra b s).click_button ≡ s.click_button)
unfolding set_extra set_modifier_mask
set_extra-rest b s = ground arith

unset_extra-rest :
    (b : ℕ) (s : HookState)
    → ((unset_extra b s).session ≡ s.session)
      × ((unset_extra b s).click_button ≡ s.click_button)
      × ((unset_extra b s).click_count ≡ s.click_count)
      × ((unset_extra b s).click_time ≡ s.click_time)
unfolding unset_extra unset_modifier_mask
unset_extra-rest b s = ground arith

press_fields :
    (p : MouseInput) (b : ℕ) (s : HookState)
    → ((process_button_pressed p b s).click_button ≡ b)
      × ((process_button_pressed p b s).click_time ≡ p.time)
      × ((process_button_pressed p b s).click_count ≡ (track_click p b s).click_count)
unfolding process_button_pressed track_click fire
press_fields p b s = ground arith

track_click-session :
    (p : MouseInput) (b : ℕ) (s : HookState) → (track_click p b s).session ≡ s.session
unfolding track_click
track_click-session p b s = ground arith

-- The types of the events that the callback received, newest first.
abbrev pub types : HookState → List EventType
types s = map (λ (e : UiohookEvent). e.type) s.session.sent

press_types :
    (p : MouseInput) (b : ℕ) (s : HookState) {d : Dispatcher}
    → s.session.dispatcher ≡ some d
    → (types (process_button_pressed p b s) ≡ mouse_pressed ∷ types s)
      × ((process_button_pressed p b s).session.dispatcher ≡ some d)
unfolding process_button_pressed fresh_event
press_types p b s h =
    let s1 = track_click p b s in
    let e = track_click-session p b s in
    let fired =
      fire_sent mouse_pressed p.time (mouse (mouse_data p b s1)) s1
        (ap (λ z. z.dispatcher) e ∙ h) in
    (
      ap (λ z. map (λ (x : UiohookEvent). x.type) z.sent) fired
          ∙ ap (λ z. mouse_pressed ∷ map (λ (x : UiohookEvent). x.type) z.sent) e,
      ap (λ z. z.dispatcher) fired ∙ ap (λ z. z.dispatcher) e ∙ h,
    )

first_count :
    (p : MouseInput) (b : ℕ) (s : HookState)
    → s.click_button ≢ b
    → (track_click p b s).click_count ≡ 1
unfolding track_click
first_count p b s h = ground arith

second_count :
    (p : MouseInput) (b : ℕ) (s : HookState)
    → s.click_button ≡ b
    → s.click_count ≡ 1
    → is_multi_click p s ≡ true
    → (track_click p b s).click_count ≡ 2
unfolding track_click
second_count p b s h c m = ground arith

pair_types :
    (p q : MouseInput) (b : ℕ) (s : HookState) {d : Dispatcher}
    → s.session.dispatcher ≡ some d
    → types
        (process_button_pressed q b (unset_extra b (process_button_pressed p b (set_extra b s))))
      ≡ mouse_pressed ∷ mouse_pressed ∷ types s
pair_types p q b s h =
    let before = (set_extra-rest b s).0 in
    let first = press_types p b (set_extra b s) (ap (λ z. z.dispatcher) before ∙ h) in
    let between = (unset_extra-rest b (process_button_pressed p b (set_extra b s))).0 in
    (press_types q b _ (ap (λ z. z.dispatcher) between ∙ first.1)).0
    ∙ ap (λ z. mouse_pressed ∷ map (λ (x : UiohookEvent). x.type) z.sent) between
    ∙ ap (λ z. mouse_pressed ∷ z)
        (first.0 ∙ ap (λ z. mouse_pressed ∷ map (λ (x : UiohookEvent). x.type) z.sent) before)

pair_count :
    (p q : MouseInput) (b : ℕ) (s : HookState)
    → s.click_button ≢ b
    → leb_ℤ (elapsed q.time p.time) q.multi_click_time ≡ true
    → (process_button_pressed q b
        (unset_extra b (process_button_pressed p b (set_extra b s)))).click_count
      ≡ 2
unfolding is_multi_click
pair_count p q b s other quick =
    let first = press_fields p b (set_extra b s) in
    let (_, same, count, time) = unset_extra-rest b (process_button_pressed p b (set_extra b s)) in
    (press_fields q b _).2
    ∙ second_count q b _ (same ∙ first.0)
        (count
          ∙ first.2
          ∙ first_count p b (set_extra b s) (λ e. other (sym (set_extra-rest b s).1 ∙ e)))
        (ap (λ (t : ℕ). leb_ℤ (elapsed q.time t) q.multi_click_time) (time ∙ first.1) ∙ quick)

other_down_lem :
    (p : MouseInput) (b : ℕ) (s : HookState)
    → b < 65536
    → p.number + 1 ≡ b
    → process_other_down p s ≡ process_button_pressed p b (set_extra b s)
unfolding process_other_down
other_down_lem p b s h e = ground arith

other_up_lem :
    (p : MouseInput) (b : ℕ) (s : HookState)
    → b < 65536
    → p.number + 1 ≡ b
    → process_other_up p s ≡ process_button_pressed p b (unset_extra b s)
unfolding process_other_up
other_up_lem p b s h e = ground arith

-- On macOS, with a callback, the press of a button other than the left and the right one, when
-- another button was pressed last, and its release within the multi-click time are sent as two
-- pressed events, with no released and no clicked event, and count as two clicks.
pub other_down_up :
    (p q : MouseInput) (s : HookState) (d : Dispatcher)
    → s.session.dispatcher ≡ some d
    → q.number ≡ p.number
    → p.number < 65535
    → s.click_button ≢ p.number + 1
    → leb_ℤ (elapsed q.time p.time) q.multi_click_time ≡ true
    → let t = process_other_up q (process_other_down p s) in
      (types t ≡ mouse_pressed ∷ mouse_pressed ∷ types s) × (t.click_count ≡ 2)
other_down_up p q s d h same small other quick =
    let b = p.number + 1 in
    let down = other_down_lem p b s (omega arith) refl in
    let up = other_up_lem q b (process_other_down p s) (omega arith) (omega arith) in
    let both = up ∙ ap (λ t. process_button_pressed q b (unset_extra b t)) down in
    (
      ap types both ∙ pair_types p q b s h,
      ap (λ t. t.click_count) both ∙ pair_count p q b s other quick,
    )

-- The events of a button going up, filled in in a state.
abbrev pub up_event : MouseInput → ℕ → HookState → UiohookEvent
up_event p b s = fresh_event mouse_released p.time (mouse (mouse_data p b s)) s

abbrev pub clicked_event : MouseInput → ℕ → HookState → UiohookEvent
clicked_event p b s = fresh_event mouse_clicked p.time (mouse (mouse_data p b s)) s

clicked_event-fire :
    (p : MouseInput) (b : ℕ) (s : HookState)
    → clicked_event p b (fire mouse_released p.time (mouse (mouse_data p b s)) s)
      ≡ clicked_event p b s
unfolding fire fresh_event mouse_data
clicked_event-fire p b s = refl

fire-drag :
    (p : MouseInput) (b : ℕ) (s : HookState)
    → (fire mouse_released p.time (mouse (mouse_data p b s)) s).is_dragged ≡ s.is_dragged
unfolding fire
fire-drag p b s = refl

reset-session : (p : MouseInput) (s : HookState) → (reset_after_release p s).session ≡ s.session
unfolding reset_after_release
reset-session p s = ground arith

negated : (b c : Bool) → (not b && not c) ≡ not (b || c)
negated b c = ground arith

-- With a callback, a button going up on macOS sends a released event, and then a clicked event unless
-- the callback set `reserved` of the first to 1 or the last motion was a drag.
pub button_up_sent :
    (p : MouseInput) (b : ℕ) (s : HookState) (d : Dispatcher)
    → s.session.dispatcher ≡ some d
    → (process_button_released p b s).session.sent ≡ (
        if (d s.session.sent (up_event p b s)).reserved == 1 || s.is_dragged
        then up_event p b s ∷ s.session.sent
        else clicked_event p b s ∷ up_event p b s ∷ s.session.sent)
unfolding process_button_released fire_clicked not_consumed
button_up_sent p b s d h =
    let fired = fire_sent mouse_released p.time (mouse (mouse_data p b s)) s h in
    let s1 = fire mouse_released p.time (mouse (mouse_data p b s)) s in
    let test =
      ap₂ (λ z g. not (z.event.reserved == 1) && not g) fired (fire-drag p b s)
      ∙ negated _ s.is_dragged in
    ap (λ z. z.sent) (reset-session p _)
    ∙ choose _ _ _ _ _ _ test
        (ap (λ z. z.sent)
            (fire_sent mouse_clicked p.time (mouse (mouse_data p b s1)) s1
              (ap (λ z. z.dispatcher) fired ∙ h))
          ∙ ap₂ (λ e z. e ∷ z.sent) (clicked_event-fire p b s) fired)
        (ap (λ z. z.sent) fired)
