-- ===== src/Kernel/Module.antt =====
-- A module as the kernel sees it: what loading it does, and what its removal does.
use ild.Base.{ℤ, pos, Bool, is_zero, if◌then◌else◌}
use ild.Kernel.Held.{Held, Resource, acquire}

-- What the functions that register something return, or whether they succeed.
pub record Kernel : Type 0 where
  pub misc_register : ℤ
  pub usb_register : ℤ
  pub proc_create : Bool
  pub kmalloc : Bool

-- `expected` is the result that loading shall have.
pub record Module : Type 0 where
  pub init : Kernel → Held → ℤ × Held
  pub exit : Held → Held
  pub expected : Kernel → ℤ

-- An entry point that registers one thing and returns the result.
abbrev pub register : Resource → ℤ → Held → ℤ × Held
register r err h = if is_zero err then (err, acquire r h) else (err, h)

-- The same where the entry point returns 0 in place of the result that says so.
abbrev pub register_or_error : Resource → ℤ → Held → ℤ × Held
register_or_error r err h = if is_zero err then (pos 0, acquire r h) else (err, h)
