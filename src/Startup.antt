-- ===== src/Startup.antt =====
-- The steps by which a platform's `hook_run` starts, with the errors of include/uiohook.h.
use libuiohook.Prelude.{ℕ, Bool, true, ◌&&◌, List, [], ◌∷◌, if◌then◌else◌}
use libuiohook.Event.{uiohook_success}

-- The error of the first step that failed, or success.
abbrev pub first_failure : List (Bool × ℕ) → ℕ
first_failure [] = uiohook_success
first_failure ((done, error) ∷ rest) = if done then first_failure rest else error

abbrev pub all_done : List (Bool × ℕ) → Bool
all_done [] = true
all_done ((done, error) ∷ rest) = done && all_done rest
