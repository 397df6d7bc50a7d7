-- ===== src/X11/Xkb.antt =====
-- src/x11/input_hook.c and src/x11/input_helper.c: the objects of libxkbcommon that the hook makes when it
-- starts, and gives back. What XCB and libxkbcommon answer is an argument.
use libuiohook.Prelude.{ℕ, ◌+◌, ◌-◌, Bool, ◌&&◌, if◌then◌else◌}

pub record XkbAnswers : Type 0 where
  -- `xcb_connection_has_error` finds no error, and `xkb_context_new`.
  pub connected : Bool
  pub context_made : Bool
  -- Whether `hook->input.context`, which `malloc` leaves as it was, is not NULL before it is set.
  pub context_left : Bool
  -- What the branch taken for the keyboard answers: the core device's if its identifier is known, or the
  -- one for names of rules.
  pub keymap_made : Bool
  pub state_made : Bool

-- The references to objects of libxkbcommon that the library has taken and not given back, and how often
-- it has given back a reference to what stood in `hook->input.context` although it never was set.
pub record References : Type 0 where
  pub contexts : ℕ
  pub keymaps : ℕ
  pub states : ℕ
  pub strays : ℕ

unfoldable pub has_context : XkbAnswers → Bool
has_context a = a.connected && a.context_made

-- `xkb_context_new`, and `xkb_context_ref` for the field of the hook.
unfoldable pub create_context : XkbAnswers → References → References
create_context a r = if has_context a then record r { contexts = r.contexts + 1 + 1 } else r

unfoldable pub new_keymap : XkbAnswers → References → References
new_keymap a r = if a.keymap_made then record r { keymaps = r.keymaps + 1 } else r

unfoldable pub unref_keymap : XkbAnswers → References → References
unref_keymap a r = if a.keymap_made then record r { keymaps = r.keymaps - 1 } else r

-- A new state, and a further reference to it: `xkb_state_ref` gives back the state that it is given.
unfoldable pub create_xkb_state : XkbAnswers → References → References
create_xkb_state a r =
    let r1 = new_keymap a r in
    let r2 = if a.state_made then record r1 { states = r1.states + 1 } else r1 in
    let r3 = unref_keymap a r2 in if a.state_made then record r3 { states = r3.states + 1 } else r3

unfoldable pub destroy_xkb_state : References → References
destroy_xkb_state r = record r { states = r.states - 1 }

-- `xkb_context_unref`, if `hook->input.context` is not NULL.
unfoldable pub release_context : XkbAnswers → References → References
release_context a r =
    if has_context a
    then record r { contexts = r.contexts - 1 }
    else if a.context_left
    then record r { strays = r.strays + 1 }
    else r

-- After the recording: the state, if there is one, and the context.
unfoldable pub release_xkb : XkbAnswers → References → References
release_xkb a r = release_context a (if a.state_made then destroy_xkb_state r else r)
