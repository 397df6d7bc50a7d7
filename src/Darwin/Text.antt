-- ===== src/Darwin/Text.antt =====
-- src/darwin/input_helper.c: `keycode_to_unicode`, `unload_input_helper` and
-- `is_accessibility_enabled`, with ApplicationServices.
pub mod Laws
use libuiohook.Prelude.{
  ℕ, ◌+◌, ◌-◌, ◌/◌, Bool, true, false, ◌&&◌, ◌||◌, not, List, [], ◌∷◌, Option, none, some, ◌==◌,
  bit_and, if◌then◌else◌,
}

-- The bits of `CGEventFlags`, of the system's headers.
abbrev pub alpha_shift_bit : ℕ
alpha_shift_bit = 0x10000

-- `cmd_modifiers`: command, control and alternate.
abbrev pub cmd_modifiers : ℕ
cmd_modifiers = 0x1C0000

-- `flags & ~mask` in 64 bits.
unfoldable pub clear_bits : ℕ → ℕ → ℕ
clear_bits mask flags = bit_and flags (0xFFFFFFFFFFFFFFFF - mask)

-- An input source: which one it is, whether its type is that of a keyboard layout's source, whether its
-- property is data of some length, and whether that data has bytes.
pub record InputSource : Type 0 where
  pub id : ℕ
  pub is_source : Bool
  pub has_layout : Bool
  pub has_bytes : Bool

-- `UCKeyTranslate`: its status, the units it writes, of which there are as many as it counts, and the
-- dead key state it leaves.
pub record Translation : Type 0 where
  pub success : Bool
  pub units : List ℕ
  pub deadkey_state : ℕ

-- What is answered for a key: whether the run loop is the main one; the current source, of which a
-- reference is handed over, or NULL; the key and its flags; the translation for an input source, a key,
-- the modifiers and a dead key state; and the units in capitals, if the string can be made.
pub record KeyAnswers : Type 0 where
  pub is_main : Bool
  pub source : Option InputSource
  pub keycode : ℕ
  pub flags : ℕ
  pub translate : ℕ → ℕ → ℕ → ℕ → Translation
  pub uppercase : List ℕ → Option (List ℕ)

-- `deadkey_state`, `prev_keyboard_layout` by which source it is, and the references that are held to
-- input sources.
pub record TextState : Type 0 where
  pub deadkey_state : ℕ
  pub prev : Option ℕ
  pub references : ℕ

-- Whether the layout changed, both being known.
unfoldable pub has_changed : Option ℕ → Option InputSource → Bool
has_changed none source = false
has_changed (some p) none = false
has_changed (some p) (some l) = not (l.id == p)

unfoldable pub forget_dead : Option InputSource → TextState → TextState
forget_dead source s = record s {
  deadkey_state = if has_changed s.prev source then 0 else s.deadkey_state;
}

unfoldable pub copy_source : Option InputSource → TextState → TextState
copy_source none s = s
copy_source (some l) s = record s { references = s.references + 1 }

unfoldable pub release_prev : TextState → TextState
release_prev s = elim s.prev [
  | none ↦ s
  | some p ↦ record s { prev = none; references = s.references - 1 }
]

unfoldable pub keep_source : Option InputSource → TextState → TextState
keep_source none s = s
keep_source (some l) s = record s { prev = some l.id }

-- The block for the main run loop.
unfoldable pub switch_source : Option InputSource → TextState → TextState
switch_source source s =
    keep_source source (release_prev (forget_dead source (copy_source source s)))

unfoldable pub modifier_state : ℕ → ℕ
modifier_state flags =
    bit_and (clear_bits alpha_shift_bit (clear_bits cmd_modifiers flags) / 65536) 0xFF

unfoldable pub capitals : KeyAnswers → List ℕ → List ℕ
capitals a units = elim (a.uppercase units) [ none ↦ [] | some upper ↦ upper ]

-- The units of a translation: none of one that failed, and capitals under caps lock.
unfoldable pub translated_units : KeyAnswers → Translation → List ℕ
translated_units a t =
    if t.success
    then (elim t.units [
      | [] ↦ []
      | u ∷ us ↦
          if not (bit_and (clear_bits cmd_modifiers a.flags) alpha_shift_bit == 0)
          then capitals a (u ∷ us)
          else u ∷ us
    ])
    else []

unfoldable pub translate_key : KeyAnswers → InputSource → TextState → TextState × List ℕ
translate_key a l s =
    if l.is_source && l.has_layout && l.has_bytes
    then (let t = a.translate l.id a.keycode (modifier_state a.flags) s.deadkey_state in
        (record s { deadkey_state = t.deadkey_state }, translated_units a t))
    else (s, [])

-- The codes that are dropped: home, end, help, function keys, page up, page down and volume up.
unfoldable pub is_invalid : ℕ → Bool
is_invalid c =
    c == 0x01 || c == 0x04 || c == 0x05 || c == 0x10 || c == 0x0B || c == 0x0C || c == 0x1F

unfoldable pub drop_invalid : List ℕ → List ℕ
drop_invalid [] = []
drop_invalid (u ∷ []) = if is_invalid u then [] else u ∷ []
drop_invalid (u ∷ v ∷ us) = u ∷ v ∷ us

unfoldable pub look_up : KeyAnswers → Option InputSource → TextState → TextState × List ℕ
look_up a none s = (s, [])
look_up a (some l) s = translate_key a l s

unfoldable pub keycode_to_unicode : KeyAnswers → TextState → TextState × List ℕ
keycode_to_unicode a s =
    if a.is_main
    then (let (s1, units) = look_up a a.source (switch_source a.source s) in
        (s1, drop_invalid units))
    else (s, [])

unfoldable pub unload_input_helper : TextState → TextState
unload_input_helper s = release_prev s

unfoldable pub run_keys : List KeyAnswers → TextState → TextState
run_keys [] s = s
run_keys (a ∷ rest) s = run_keys rest (keycode_to_unicode a s).0

-- `is_accessibility_enabled`: what the newer function answers, if the library has it, inside the key
-- for its option, if that is found; and else what the older function answers, if it is found.
pub record TrustAnswers : Type 0 where
  pub trusted : Option (Option Bool)
  pub api_enabled : Option Bool

unfoldable pub or_false : Option Bool → Bool
or_false none = false
or_false (some b) = b

unfoldable pub is_accessibility_enabled : TrustAnswers → Bool
is_accessibility_enabled a = elim a.trusted [
  | some answer ↦ or_false answer
  | none ↦ or_false a.api_enabled
]
