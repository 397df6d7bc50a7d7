-- ===== src/Dispatch.antt =====
-- `hook_set_dispatch_proc` and `dispatch_event`, which each platform's input_hook.c has, and the
-- static `event` that the callback is given by reference. A callback does not call back into the
-- library; what it does may depend on all it was given before.
use libuiohook.Prelude.{◌≡◌, ap, List, ◌∷◌, Option, none, some}
use libuiohook.Event.{UiohookEvent}

-- The events received so far, newest first, and the event now given; the event as left behind.
abbrev pub Dispatcher : Type 0
Dispatcher = List UiohookEvent → UiohookEvent → UiohookEvent

pub record Session : Type 0 where
  pub event : UiohookEvent
  pub dispatcher : Option Dispatcher
  -- Every event handed to the callback, newest first.
  pub sent : List UiohookEvent

unfoldable pub hook_set_dispatch_proc : Option Dispatcher → Session → Session
hook_set_dispatch_proc d s = record s { dispatcher = d }

-- Without a callback the event is dropped with a warning.
unfoldable pub deliver : Option Dispatcher → Session → Session
deliver none s = s
deliver (some d) s = record s { event = d s.sent s.event; sent = s.event ∷ s.sent }

unfoldable pub dispatch_event : Session → Session
unfolding deliver
dispatch_event s = deliver s.dispatcher s

pub dispatch_event-some :
    (s : Session) {d : Dispatcher}
    → s.dispatcher ≡ some d
    → dispatch_event s ≡ record s { event = d s.sent s.event; sent = s.event ∷ s.sent }
unfolding dispatch_event
dispatch_event-some s h = ap (λ o. deliver o s) h

pub dispatch_event-none : (s : Session) → s.dispatcher ≡ none → dispatch_event s ≡ s
unfolding dispatch_event
dispatch_event-none s h = ap (λ o. deliver o s) h
