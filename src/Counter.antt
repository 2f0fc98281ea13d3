-- ===== src/Counter.antt =====
-- What the counter devices of solutions/tp-IV-01-counter-read.c to tp-IV-04-several-counters.c
-- share.
pub mod Load
pub mod Single
pub mod Several
pub mod Reads
pub mod Program
pub mod Writes
mod Tests
use ild.Base.{
  ℕ, ◌+◌, ◌%◌, ◌^◌, ◌<◌, ◌≤◌, List, [], ◌∷◌, ◌++◌, ℤ, length, length-append, length-take, arith,
  ◌==◌, if◌then◌else◌,
}
use ild.Kernel.Format.{show_d, snprintf, newline, length-show_d}
use ild.Kernel.Held.{Held}
pub use ild.Kernel.Task.{c_string}

-- "Counter = %d\n" in the 128 bytes of `kbuffer`; a counter is the 32-bit pattern of an `int`.
unfoldable pub counter_text : ℕ → List ℕ
counter_text counter = snprintf 128 (
    b'C' ∷ b'o' ∷ b'u' ∷ b'n' ∷ b't' ∷ b'e' ∷ b'r' ∷ b' ' ∷ b'=' ∷ b' ' ∷ []
    ++ (show_d counter ++ newline))

abbrev pub add_int : ℕ → ℕ → ℕ
add_int a b = (a + b) % 2 ^ 32

-- What a write system call or an ioctl returns, the driver's state after it, and what it holds of
-- the kernel's memory.
pub record Written (S : Type 0) : Type 0 where
  pub ret : ℤ
  pub state : S
  pub held : Held

-- A command as the macros of <asm/ioctl.h> take it apart.
pub record Command : Type 0 where
  pub ioc_type : ℕ
  pub ioc_nr : ℕ

abbrev pub counter_ioctl_magic : ℕ
counter_ioctl_magic = b'c'

abbrev pub set_step_command : ℕ
set_step_command = 1

pub length-counter_text :
    (counter : ℕ) → (0 < length (counter_text counter)) × (length (counter_text counter) < 128)
unfolding counter_text
length-counter_text counter =
    let text = show_d counter ++ newline in
    omega
      (arith, length-take 117 text, length-append (show_d counter) newline, length-show_d counter)
