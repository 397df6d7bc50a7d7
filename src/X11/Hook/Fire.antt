-- ===== src/X11/Hook/Fire.antt =====
-- src/x11/input_hook.c: filling the static `event` and dispatching it.
use libuiohook.Prelude.{ℕ, Bool, not, ◌==◌}
use libuiohook.Event.{EventType, EventData, UiohookEvent}
use libuiohook.Dispatch.{dispatch_event}
use libuiohook.X11.Hook.State.{HookState, get_modifiers}

-- The event that the hook fills in: the current mask, and `reserved` cleared.
unfoldable pub fresh_event : EventType → ℕ → EventData → HookState → UiohookEvent
unfolding get_modifiers
fresh_event type time payload s = record {
  type = type;
  time = time;
  mask = get_modifiers s;
  reserved = 0x00;
  payload = payload;
}

unfoldable pub fire : EventType → ℕ → EventData → HookState → HookState
unfolding fresh_event
fire type time payload s = record s {
  session = dispatch_event (record s.session { event = fresh_event type time payload s });
}

-- `event.reserved ^ 0x01`: the callback did not consume the event.
unfoldable pub not_consumed : HookState → Bool
not_consumed s = not (s.session.event.reserved == 0x01)
