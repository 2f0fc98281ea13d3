-- ===== src/Kernel/Task.antt =====
-- What the drivers read of the current process, and the texts that they format from it.
use ild.Base.{ℕ, ◌<◌, List, [], ◌∷◌, length, length-take, arith, ◌==◌, if◌then◌else◌}
use ild.Kernel.Format.{snprintf}

-- `comm` is the process's name, `ppid` the pid of its `real_parent`; the pids are unsigned.
pub record Task : Type 0 where
  pub pid : ℕ
  pub ppid : ℕ
  pub comm : List ℕ

-- The bytes of a buffer up to its first NUL.
abbrev pub c_string : List ℕ → List ℕ
c_string [] = []
c_string (c ∷ cs) = let rest = c_string cs in if c == 0 then [] else c ∷ rest

-- "PID=", ", PPID=", ", Command="
abbrev pub pid_label : List ℕ
pid_label = b'P' ∷ b'I' ∷ b'D' ∷ b'=' ∷ []

abbrev pub ppid_label : List ℕ
ppid_label = b',' ∷ b' ' ∷ b'P' ∷ b'P' ∷ b'I' ∷ b'D' ∷ b'=' ∷ []

abbrev pub command_label : List ℕ
command_label = b',' ∷ b' ' ∷ b'C' ∷ b'o' ∷ b'm' ∷ b'm' ∷ b'a' ∷ b'n' ∷ b'd' ∷ b'=' ∷ []

-- A text that `snprintf` leaves in 128 bytes.
pub length-snprintf : (text : List ℕ) → length (snprintf 128 text) < 128
length-snprintf text = omega (arith, length-take 127 text)
