-- ===== src/Gpio/Balance.antt =====
-- What the entry and exit points of a module owe the kernel.
use ild.Base.{ℤ, pos, is_zero, List, [], ◌∷◌, if◌then◌else◌}
use ild.Kernel.Held.{Held}

-- What is held once a module that loaded is removed again, or after it refused to load.
abbrev pub settle : (Held → Held) → ℤ × Held → Held
settle exit (err, h) = if is_zero err then exit h else h

-- The first code that is not zero, of calls made in turn.
abbrev pub first_error : List ℤ → ℤ
first_error [] = pos 0
first_error (e ∷ es) = if is_zero e then first_error es else e
