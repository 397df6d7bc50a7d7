-- ===== src/X11/Properties/Laws.antt =====
-- src/x11/system_properties.c: which answer the multi-click time is.
use libuiohook.Prelude.{
  ◌≡◌, refl, Bool, true, false, Option, none, some, ℤ, pos, leb_ℤ, Bool-cases, inl, inr,
  if◌then◌else◌,
}
use libuiohook.X11.Properties.{
  Default, missing, empty, unreadable, number, ClickAnswers, Click, ask_toolkit, read_default,
  ask_default, hook_get_multi_click_time,
}

-- The time that the toolkit gives, if it can be used.
abbrev pub toolkit_time : Option ℤ → Option ℤ
toolkit_time none = none
toolkit_time (some t) = if leb_ℤ (pos 0) t then some t else none

-- A default that is not passed over, with the time that is then returned: its own, or the one left in
-- the variable.
abbrev pub default_time : Option ℤ → Default → Option (Option ℤ)
default_time left missing = none
default_time left empty = none
default_time left unreadable = some left
default_time left (number t) = some (some t)

abbrev pub or_else : Option (Option ℤ) → Option ℤ → Option ℤ
or_else none other = other
or_else (some t) other = t

-- The first answer that there is, of the toolkit and of the two defaults, and else 200 ms.
abbrev pub first_from : Option ℤ → Option ℤ → Bool → Default → Default → Option ℤ
first_from (some t) left display d e = some t
first_from none left display d e =
    if display
    then or_else (default_time left d) (or_else (default_time left e) (some (pos 200)))
    else some (pos 200)

abbrev pub first_time : ClickAnswers → Option ℤ
first_time a =
    first_from (toolkit_time a.toolkit) a.toolkit a.has_display a.any_program a.open_windows

abbrev waiting : Option ℤ → Click
waiting left = record { click_time = left; is_successful = false }

-- The value that is returned.
abbrev value_of : Click → Option ℤ
value_of c = if c.is_successful then c.click_time else some (pos 200)

ask_one :
    (left : Option ℤ) (d : Default)
    → value_of (read_default d (waiting left)) ≡ or_else (default_time left d) (some (pos 200))
unfolding read_default
ask_one left missing = refl
ask_one left empty = refl
ask_one left unreadable = refl
ask_one left (number t) = refl

-- The two defaults, where the toolkit gave no time.
ask_both :
    (left : Option ℤ) (d e : Default)
    → value_of (ask_default true e (ask_default true d (waiting left)))
      ≡ or_else (default_time left d) (or_else (default_time left e) (some (pos 200)))
unfolding ask_default read_default
ask_both left missing e = ask_one left e
ask_both left empty e = ask_one left e
ask_both left unreadable e = refl
ask_both left (number t) e = refl

ask_defaults :
    (display : Bool) (left : Option ℤ) (d e : Default)
    → value_of (ask_default display e (ask_default display d (waiting left))) ≡ (
        if display
        then or_else (default_time left d) (or_else (default_time left e) (some (pos 200)))
        else some (pos 200))
unfolding ask_default
ask_defaults true left d e = ask_both left d e
ask_defaults false left d e = refl

-- Once there is a time, no default is asked.
ask_default_done :
    (display : Bool) (d : Default) (c : Click)
    → c.is_successful ≡ true
    → ask_default display d c ≡ c
unfolding ask_default
ask_default_done true d c h = simp h
ask_default_done false d c h = refl

answered :
    (t : ℤ) (display : Bool) (d e : Default)
    → value_of (
        ask_default display e
          (ask_default display d (record { click_time = some t; is_successful = true })))
      ≡ some t
answered t display d e =
    rw
      (
        ask_default_done display d (record { click_time = some t; is_successful = true }) refl,
        ask_default_done display e (record { click_time = some t; is_successful = true }) refl,
      )
      refl

times :
    (toolkit : Option ℤ) (display : Bool) (d e : Default)
    → value_of (ask_default display e (ask_default display d (ask_toolkit toolkit (waiting none))))
      ≡ first_from (toolkit_time toolkit) toolkit display d e
unfolding ask_toolkit
times none display d e = ask_defaults display none d e
times (some t) display d e = elim (Bool-cases (leb_ℤ (pos 0) t)) [
  | inl usable ↦ rw usable (answered t display d e)
  | inr negative ↦ rw negative (ask_defaults display (some t) d e)
]

-- The multi-click time on X11 is the first answer that there is: of the toolkit, if it is not negative,
-- of the default for any program, of the one for OpenWindows, and else 200 ms. A default that is no
-- number counts as an answer: the value is then what the toolkit left, and read from a variable that
-- was never assigned if the toolkit was not asked.
pub hook_get_multi_click_time-first_time :
    (a : ClickAnswers) → hook_get_multi_click_time a ≡ first_time a
unfolding hook_get_multi_click_time
hook_get_multi_click_time-first_time a = times a.toolkit a.has_display a.any_program a.open_windows
