-- ===== src/Message/Mutex.antt =====
-- solutions/tp-V-02-message-mutex.c. `interrupted` tells that a signal ends the wait for the mutex.
use ild.Base.{ℕ, ℤ, pos, neg, Bool, true, false, List, [], ◌==◌, if◌then◌else◌}
use ild.Kernel.Errno.{enomem, erestartsys}
use ild.Kernel.Copy.{reply}
use ild.Text.{Answer}
use ild.Message.{Messages, msg_nb_max, remaining, remove_first, copy_piece, write_last}

abbrev pub lock : Messages → Messages
lock s = record s { locked = true }

abbrev pub unlock : Messages → Messages
unlock s = record s { locked = false }

-- `mutex_unlock` on the way out of a read and of a write.
abbrev pub unlock_read : Answer Messages → Answer Messages
unlock_read a = record a { state = unlock a.state }

abbrev pub unlock_write : ℤ × Messages → ℤ × Messages
unlock_write (ret, s) = (ret, unlock s)

unfoldable pub messages_read : Bool → ℕ → ℕ → ℕ → Messages → Answer Messages
messages_read interrupted size left offset s =
    let s₁ = lock s in
    if interrupted
    then record { reply = reply (neg erestartsys) []; state = s; offset = offset }
    else (if s₁.count == 0
        then unlock_read (record { reply = reply (pos 0) []; state = s₁; offset = offset })
        else (if remaining s₁ offset == 0
            then unlock_read
                (record { reply = reply (pos 0) []; state = remove_first s₁; offset = offset })
            else unlock_read (copy_piece size left offset s₁)))

unfoldable pub messages_write : Bool → List ℕ → ℕ → ℕ → Messages → ℤ × Messages
messages_write interrupted u_buffer size left s =
    let s₁ = lock s in
    if interrupted
    then (neg erestartsys, s)
    else (if s₁.count == msg_nb_max
        then unlock_write (neg enomem, s₁)
        else unlock_write (write_last u_buffer size left s₁))
