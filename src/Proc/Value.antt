-- ===== src/Proc/Value.antt =====
-- exemples/02-appels-systeme/example-II-06.c and solutions/tp-II-03-proc-sum.c: a number that
-- writes change and reads show.
use ild.Base.{
  ℕ, List, [], ◌∷◌, ◌++◌, ℤ, pos, neg, Option, none, some, leb, ◌==◌, not, if◌then◌else◌,
}
use ild.Kernel.Errno.{enomem, efault, einval}
use ild.Kernel.Copy.{from_user}
use ild.Kernel.Format.{decimal, show_d, snprintf, newline}
use ild.Kernel.Task.{Task, c_string, pid_label, ppid_label, command_label}
use ild.Kernel.Buffer.{SimpleRead}
use ild.Text.{Answer, read_device}
use ild.Counter.{add_int}
use ild.Proc.Current.{simple_answer}

-- ", Value="
abbrev value_label : List ℕ
value_label = b',' ∷ b' ' ∷ b'V' ∷ b'a' ∷ b'l' ∷ b'u' ∷ b'e' ∷ b'=' ∷ []

-- "PID=%u, PPID=%u, Command=%s, Value=%d\n"; the value is the pattern of an `int`.
abbrev pub value_line : Task → ℕ → List ℕ
value_line task value =
    pid_label
    ++ (decimal task.pid
        ++ (ppid_label
            ++ (decimal task.ppid
                ++ (command_label
                    ++ (c_string task.comm ++ (value_label ++ (show_d value ++ newline)))))))

unfoldable pub value_text : Task → ℕ → List ℕ
value_text task value = snprintf 128 (value_line task value)

unfoldable pub value_read : SimpleRead → Task → ℕ → ℕ → ℕ → ℕ → Answer ℕ
value_read simple_read_from_buffer task = simple_answer simple_read_from_buffer (value_text task)

-- `sscanf` gives the number that "%d" converts in the text, if there is one.
unfoldable pub value_write : (List ℕ → Option ℕ) → List ℕ → ℕ → ℕ → ℕ → ℤ × ℕ
value_write sscanf u_buffer nb left value =
    if leb 128 nb
    then (neg enomem, value)
    else (if not (left == 0)
        then (neg efault, value)
        else elim (sscanf (c_string (from_user u_buffer nb left ++ 0 ∷ []))) [
          | none ↦ (neg einval, value)
          | some read ↦ (pos nb, read)
        ])

-- tp-II-03-proc-sum.c: "%d\n" in 32 bytes.
unfoldable pub sum_text : ℕ → List ℕ
sum_text sum = snprintf 32 (show_d sum ++ newline)

unfoldable pub sum_read : ℕ → ℕ → ℕ → ℕ → Answer ℕ
sum_read = read_device sum_text (λ sum. sum)

unfoldable pub sum_write : (List ℕ → Option ℕ) → List ℕ → ℕ → ℕ → ℕ → ℤ × ℕ
sum_write sscanf u_buffer nb left sum =
    if leb 128 nb
    then (neg enomem, sum)
    else (if not (left == 0)
        then (neg efault, sum)
        else elim (sscanf (c_string (from_user u_buffer nb left ++ 0 ∷ []))) [
          | none ↦ (neg einval, sum)
          | some value ↦ (pos nb, add_int sum value)
        ])
