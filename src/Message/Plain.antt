-- ===== src/Message/Plain.antt =====
-- solutions/tp-V-01-message-read-write.c.
use ild.Base.{ℕ, ℤ, pos, neg, List, [], ◌==◌, if◌then◌else◌}
use ild.Kernel.Errno.{enomem}
use ild.Kernel.Copy.{reply}
use ild.Text.{Answer}
use ild.Message.{Messages, msg_nb_max, remaining, remove_first, copy_piece, write_last}

unfoldable pub messages_read : ℕ → ℕ → ℕ → Messages → Answer Messages
messages_read size left offset s =
    if s.count == 0
    then record { reply = reply (pos 0) []; state = s; offset = offset }
    else (if remaining s offset == 0
        then record { reply = reply (pos 0) []; state = remove_first s; offset = offset }
        else copy_piece size left offset s)

unfoldable pub messages_write : List ℕ → ℕ → ℕ → Messages → ℤ × Messages
messages_write u_buffer size left s =
    if s.count == msg_nb_max then (neg enomem, s) else write_last u_buffer size left s
