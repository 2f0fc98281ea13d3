-- ===== src/Proc/Current.antt =====
-- The reads of exemples/02-appels-systeme/example-II-03.c to example-II-05.c and of
-- solutions/tp-II-02-proc-current-pid.c: the text is that of the process which reads.
use ild.Base.{ℕ, List, [], ◌++◌, pos, neg, ltb, ◌==◌, not, if◌then◌else◌, length}
use ild.Kernel.Errno.{enomem, efault}
use ild.Kernel.Copy.{reply}
use ild.Kernel.Format.{decimal, snprintf, newline}
use ild.Kernel.Task.{Task, c_string, pid_label, ppid_label, command_label}
use ild.Kernel.Buffer.{SimpleRead}
use ild.Text.{Answer, read_device}

-- "PID=%u, PPID=%u, Command=%s\n" in 128 bytes.
abbrev pub task_line : Task → List ℕ
task_line task =
    pid_label
    ++ (decimal task.pid
        ++ (ppid_label
            ++ (decimal task.ppid ++ (command_label ++ (c_string task.comm ++ newline)))))

unfoldable pub task_text : Task → List ℕ
task_text task = snprintf 128 (task_line task)

-- example-II-03.c: the whole text or an error. The offset is neither read nor moved.
unfoldable pub whole_read : Task → ℕ → ℕ → ℕ → Answer Task
whole_read task max offset left =
    let text = task_text task in
    let nb = length text in
    if ltb max nb
    then record { reply = reply (neg enomem) []; state = task; offset = offset }
    else (if not (left == 0)
        then record { reply = reply (neg efault) []; state = task; offset = offset }
        else record { reply = reply (pos nb) text; state = task; offset = offset })

-- example-II-04.c
unfoldable pub piece_read : Task → ℕ → ℕ → ℕ → Answer Task
piece_read = read_device task_text (λ task. task)

abbrev pub simple_answer : {S : Type 0} → SimpleRead → (S → List ℕ) → S → ℕ → ℕ → ℕ → Answer S
simple_answer simple_read text s max offset left =
    let (r, next) = simple_read (text s) max offset left in
    record { reply = r; state = s; offset = next }

-- example-II-05.c
unfoldable pub simple_read : SimpleRead → Task → ℕ → ℕ → ℕ → Answer Task
simple_read simple_read_from_buffer = simple_answer simple_read_from_buffer task_text

-- tp-II-02-proc-current-pid.c: "%u\n" in 32 bytes.
unfoldable pub pid_text : Task → List ℕ
pid_text task = snprintf 32 (decimal task.pid ++ newline)

unfoldable pub pid_read : Task → ℕ → ℕ → ℕ → Answer Task
pid_read = read_device pid_text (λ task. task)
