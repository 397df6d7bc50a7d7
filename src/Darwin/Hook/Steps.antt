-- ===== src/Darwin/Hook/Steps.antt =====
-- src/darwin/input_hook.c: what one step of the hook may do to the modifier mask and the click count.
use libuiohook.Prelude.{
  ℕ, ◌<◌, ◌≡◌, refl, ◌∙◌, Bool, true, ◌&&◌, some, arith, ltb, ltb→lt, ◌==◌, bit, bit-le, bit-bit_or,
  bit-bit_and, bit-not16, bit_or-lt, bit_and-le, not16,
}
use libuiohook.Event.{EventType, EventData}
use libuiohook.Darwin.Hook.State.{HookState, set_modifier_mask, unset_modifier_mask, fire}
use libuiohook.Darwin.Hook.Keys.{Flags, key_modifier}

-- The bits of the mouse buttons 3, 4 and 5, of num lock and of scroll lock.
pub data Kept : Type 0 where
  button3 button4 button5 num_lock scroll_lock : Kept

abbrev pub index : Kept → ℕ
index button3 = 10
index button4 = 11
index button5 = 12
index num_lock = 13
index scroll_lock = 15

-- A mask without those bits.
abbrev pub is_allowed : ℕ → Bool
is_allowed m =
    ltb m 65536 && bit m 10 == 0 && bit m 11 == 0 && bit m 12 == 0 && bit m 13 == 0 && bit m 15 == 0

-- The five tests give five equations, for any numbers.
all_zero :
    (w : Bool) (a b c d e : ℕ)
    → (w && a == 0 && b == 0 && c == 0 && d == 0 && e == 0) ≡ true
    → (w ≡ true) × (a ≡ 0) × (b ≡ 0) × (c ≡ 0) × (d ≡ 0) × (e ≡ 0)
all_zero w a b c d e h = ground arith

allowed_bits :
    (m : ℕ)
    → is_allowed m ≡ true
    → (ltb m 65536 ≡ true)
      × (bit m 10 ≡ 0)
      × (bit m 11 ≡ 0)
      × (bit m 12 ≡ 0)
      × (bit m 13 ≡ 0)
      × (bit m 15 ≡ 0)
allowed_bits m h = all_zero (ltb m 65536) (bit m 10) (bit m 11) (bit m 12) (bit m 13) (bit m 15) h

allowed_lt : (m : ℕ) → is_allowed m ≡ true → m < 65536
allowed_lt m h = ltb→lt m 65536 (allowed_bits m h).0

allowed_bit : (m : ℕ) (i : Kept) → is_allowed m ≡ true → bit m (index i) ≡ 0
allowed_bit m button3 h = let (_, b3, b4, b5, n, c) = allowed_bits m h in b3
allowed_bit m button4 h = let (_, b3, b4, b5, n, c) = allowed_bits m h in b4
allowed_bit m button5 h = let (_, b3, b4, b5, n, c) = allowed_bits m h in b5
allowed_bit m num_lock h = let (_, b3, b4, b5, n, c) = allowed_bits m h in n
allowed_bit m scroll_lock h = let (_, b3, b4, b5, n, c) = allowed_bits m h in c

index_lt : (i : Kept) → index i < 16
index_lt button3 = omega arith
index_lt button4 = omega arith
index_lt button5 = omega arith
index_lt num_lock = omega arith
index_lt scroll_lock = omega arith

-- From `s` to `t` the 16-bit fields keep their size, and the bits above their value.
pub record Steps (s t : HookState) : Type 0 where
  pub mask_fits : s.current_modifiers < 65536 → t.current_modifiers < 65536
  pub count_fits : s.click_count < 65536 → t.click_count < 65536
  pub kept : (i : Kept) → bit t.current_modifiers (index i) ≡ bit s.current_modifiers (index i)

pub Steps-refl : (s : HookState) → Steps s s
Steps-refl s = record { mask_fits = λ h. h; count_fits = λ h. h; kept = λ i. refl }

pub Steps-trans : {s t u : HookState} → Steps s t → Steps t u → Steps s u
Steps-trans a b = record {
  mask_fits = λ h. b.mask_fits (a.mask_fits h);
  count_fits = λ h. b.count_fits (a.count_fits h);
  kept = λ i. b.kept i ∙ a.kept i;
}

pub set-Steps : (m : ℕ) (s : HookState) → is_allowed m ≡ true → Steps s (set_modifier_mask m s)
unfolding set_modifier_mask
set-Steps m s h = record {
  mask_fits = λ v. bit_or-lt 16 s.current_modifiers m v (allowed_lt m h);
  count_fits = λ v. v;
  kept = λ i. omega (arith, bit-bit_or s.current_modifiers m (index i), allowed_bit m i h);
}

pub unset-Steps : (m : ℕ) (s : HookState) → is_allowed m ≡ true → Steps s (unset_modifier_mask m s)
unfolding unset_modifier_mask
unset-Steps m s h = record {
  mask_fits = λ v. omega (arith, bit_and-le 16 s.current_modifiers (not16 m) v, v);
  count_fits = λ v. v;
  kept = λ i. omega (
    arith,
    bit-bit_and s.current_modifiers (not16 m) (index i),
    bit-not16 m (index i) (allowed_lt m h) (index_lt i),
    allowed_bit m i h,
    bit-le s.current_modifiers (index i),
  );
}

pub fire-Steps :
    (type : EventType) (time : ℕ) (payload : EventData) (s : HookState)
    → Steps s (fire type time payload s)
unfolding fire
fire-Steps type time payload s = record {
  mask_fits = λ h. h;
  count_fits = λ h. h;
  kept = λ i. refl;
}

-- A step that leaves the mask alone and counts clicks in 16 bits.
pub same_mask-Steps :
    (s t : HookState)
    → t.current_modifiers ≡ s.current_modifiers
    → (s.click_count < 65536 → t.click_count < 65536)
    → Steps s t
same_mask-Steps s t e f = record {
  mask_fits = λ h. omega (arith, e, h);
  count_fits = f;
  kept = λ i. rw e refl;
}

pub key_modifier-is_allowed :
    (code : ℕ) (flags : Flags) (m : ℕ) (down : Bool)
    → key_modifier code flags ≡ some (m, down)
    → is_allowed m ≡ true
unfolding key_modifier
key_modifier-is_allowed code flags m down h = ground arith
