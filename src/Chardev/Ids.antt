-- ===== src/Chardev/Ids.antt =====
-- exemples/04-driver-caracteres/example-IV-05.c and example-IV-06.c: a device that gives the pids
-- of the reading process, and an ioctl that chooses which.
use ild.Base.{
  ℕ, ◌<◌, ◌≡◌, List, [], ◌∷◌, ◌++◌, ℤ, pos, neg, ◌==◌, ◌&&◌, ◌||◌, not, if◌then◌else◌, Option, none,
  some, Bool, false, length, arith,
}
use ild.Kernel.Errno.{efault, enotty}
use ild.Kernel.Format.{decimal, snprintf, newline}
use ild.Kernel.Task.{Task, pid_label, ppid_label, length-snprintf}
use ild.Kernel.Buffer.{SimpleRead, IsSimpleRead}
use ild.Text.{Answer}
use ild.Text.Cat.{cat, cat-IsReadOf}
use ild.Counter.{Command}
use ild.Proc.Current.{simple_answer}
use ild.Proc.Reads.{simple_answer-IsReadOf}

-- "PID=%u, PPID=%u\n"
unfoldable pub ids_text : Task → List ℕ
ids_text task =
    snprintf 128 (pid_label ++ (decimal task.pid ++ (ppid_label ++ (decimal task.ppid ++ newline))))

unfoldable pub ids_read : SimpleRead → Task → ℕ → ℕ → ℕ → Answer Task
ids_read simple_read_from_buffer = simple_answer simple_read_from_buffer ids_text

abbrev space : List ℕ
space = b' ' ∷ []

-- "PID= %u, PPID= %u\n", or "PID= %u\n" when the flag is 0.
abbrev pub flag_line : Task → ℕ → List ℕ
flag_line task example_ppid_flag =
    if not (example_ppid_flag == 0)
    then pid_label
      ++ (space ++ (decimal task.pid ++ (ppid_label ++ (space ++ (decimal task.ppid ++ newline)))))
    else pid_label ++ (space ++ (decimal task.pid ++ newline))

unfoldable pub flag_text : Task → ℕ → List ℕ
flag_text task example_ppid_flag = snprintf 128 (flag_line task example_ppid_flag)

unfoldable pub flag_read : SimpleRead → Task → ℕ → ℕ → ℕ → ℕ → Answer ℕ
flag_read simple_read_from_buffer task = simple_answer simple_read_from_buffer (flag_text task)

abbrev pub example_ioctl_magic : ℕ
example_ioctl_magic = b'x'

abbrev pub example_internal_get_ppid_flag : ℕ
example_internal_get_ppid_flag = 1

abbrev pub example_internal_set_ppid_flag : ℕ
example_internal_set_ppid_flag = 2

-- The commands of example-IV-06.h.
abbrev pub example_get_ppid_flag : Command
example_get_ppid_flag = record {
  ioc_type = example_ioctl_magic;
  ioc_nr = example_internal_get_ppid_flag;
}

abbrev pub example_set_ppid_flag : Command
example_set_ppid_flag = record {
  ioc_type = example_ioctl_magic;
  ioc_nr = example_internal_set_ppid_flag;
}

-- The result of an ioctl, the `int` that it copied to the caller, and the flag after it.
pub record Ioctl : Type 0 where
  pub ret : ℤ
  pub given : Option ℕ
  pub flag : ℕ

-- `word` is what `copy_from_user` writes over the flag, and `left` the bytes that a copy cannot
-- make.
unfoldable pub example_ioctl : Command → ℕ → ℕ → ℕ → Ioctl
example_ioctl cmd word left flag =
    let stays : ℤ → Ioctl = λ ret. record { ret = ret; given = none; flag = flag } in
    if not (cmd.ioc_type == example_ioctl_magic)
    then stays (neg enotty)
    else (if cmd.ioc_nr == example_internal_get_ppid_flag
        then (if not (left == 0)
            then stays (neg efault)
            else record { ret = pos 0; given = some flag; flag = flag })
        else (if cmd.ioc_nr == example_internal_set_ppid_flag
            then (if not (left == 0)
                then record { ret = neg efault; given = none; flag = word }
                else record { ret = pos 0; given = none; flag = word })
            else stays (neg enotty)))

length-flag_text : (task : Task) (flag : ℕ) → length (flag_text task flag) < 128
unfolding flag_text
length-flag_text task flag = length-snprintf (flag_line task flag)

pub cat-flag :
    (read : SimpleRead) (task : Task) (flag max : ℕ)
    → IsSimpleRead read
    → 0 < max
    → cat (flag_read read task) 128 max flag 0 [] ≡ some (flag_text task flag, flag)
unfolding flag_read
cat-flag read task flag max k m =
    let h = length-flag_text task flag in
    cat-IsReadOf (flag_read read task) (flag_text task flag) max flag flag
      (simple_answer-IsReadOf read (flag_text task) max flag k) 128 0 [] m (omega arith)
      (omega (arith, h))

-- The commands that example-IV-06.h declares.
abbrev pub is_known : Command → Bool
is_known cmd =
    cmd.ioc_type == example_ioctl_magic
    && (cmd.ioc_nr == example_internal_get_ppid_flag
        || cmd.ioc_nr == example_internal_set_ppid_flag)

pub other_refused :
    (cmd : Command) (word left flag : ℕ)
    → is_known cmd ≡ false
    → example_ioctl cmd word left flag ≡ record { ret = neg enotty; given = none; flag = flag }
unfolding example_ioctl
other_refused cmd word left flag o = ground arith

length-ids_text : (task : Task) → length (ids_text task) < 128
unfolding ids_text
length-ids_text task =
    length-snprintf
      (pid_label ++ (decimal task.pid ++ (ppid_label ++ (decimal task.ppid ++ newline))))

-- The device of example-IV-05.c gives its text once.
cat-ids :
    (read : SimpleRead) (task : Task) (max : ℕ)
    → IsSimpleRead read
    → 0 < max
    → cat (ids_read read) 128 max task 0 [] ≡ some (ids_text task, task)
unfolding ids_read
cat-ids read task max k m =
    let h = length-ids_text task in
    cat-IsReadOf (ids_read read) (ids_text task) max task task
      (simple_answer-IsReadOf read ids_text max task k) 128 0 [] m (omega arith) (omega (arith, h))
