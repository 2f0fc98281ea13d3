-- ===== src/Usb/Read.antt =====
-- The read system call of example-VII-05.c.
use ild.Base.{
  Option, none, ℕ, ◌+◌, ◌%◌, ◌==◌, ltb, ℤ, pos, neg, is_zero, Bool, true, false, not, if◌then◌else◌,
  List, [], ◌∷◌, ◌++◌, some, length, take, drop, sub_u64,
}
use ild.Kernel.Errno.{efault, enodev, erestartsys}
use ild.Kernel.Copy.{Reply, reply, out_of_bounds, overwrite}
use ild.Kernel.Format.{decimal, snprintf, newline}
use ild.Counter.{c_string}
use ild.Usb.{
  Channel, Usb, Wake, Waited, idle, stopped, still, wait_while_busy, example_read_callback, Outcome,
  returned, asleep, in_buffer_size,
}

-- What `usb_submit_urb` returns, and the status and the bytes of the URB once it is completed.
pub record Transfer : Type 0 where
  pub submit : ℤ
  pub status : ℤ
  pub bytes : List ℕ

abbrev pub lock_input : Usb → Usb
lock_input s = record s { input = record s.input { locked = true } }

abbrev pub unlock_input : Usb → Usb
unlock_input s = record s { input = record s.input { locked = false } }

-- `example_in_busy = 0` and the release of the mutex.
abbrev pub abandon : Usb → Usb
abandon s = unlock_input (record s { input = record s.input { busy = false } })

-- `0xFF & byte`, of each byte of the list, with a space before all but the first.
abbrev pub numbers : List ℕ → List ℕ
numbers [] = newline
numbers (b ∷ bytes) = b' ' ∷ decimal (b % 256) ++ numbers bytes

-- The eight numbers in the 64 bytes of `k_buffer`.
unfoldable pub packet_text : List ℕ → List ℕ
packet_text bytes = snprintf 64 (drop 1 (numbers (take 8 bytes)))

-- What a read does at the start of the file: the packet's text is in `k_buffer`, or the call is
-- over.
pub data Fetched : Type 0 where
  ready : Usb → Fetched
  ended : Reply → Usb → Fetched
  waiting : Usb → Fetched

-- The URB was submitted with the endpoint's packet size; the controller writes what the device
-- sends into the buffer of eight bytes. The buffer of the input once the controller has written
-- what the device sent.
abbrev pub received : List ℕ → Channel → List ℕ
received bytes c = overwrite bytes (held c.buffer)
  where
    held : Option (List ℕ) → List ℕ
    held none = []
    held (some old) = old

abbrev pub arrived : Transfer → Usb → Waited → Fetched
arrived transfer s stopped = ended (reply (neg erestartsys) []) (abandon s)
arrived transfer s still = waiting s
arrived transfer s (idle c _) =
    let s₁ = record s { input = record c { buffer = some (received transfer.bytes c) } } in
    if ltb in_buffer_size (length transfer.bytes)
    then ended out_of_bounds s₁
    else (if not (is_zero transfer.status)
        then ended (reply (pos 0) []) (abandon s₁)
        else ready (
            unlock_input (record s₁ {
              k_buffer = overwrite (packet_text (received transfer.bytes c) ++ 0 ∷ []) s.k_buffer;
            })))

unfoldable pub submit_read : Transfer → List Wake → Usb → Fetched
submit_read transfer wakes s =
    let s₁ = record s { input = record s.input { busy = true } } in
    if not (is_zero transfer.submit)
    then ended (reply transfer.submit []) (abandon s₁)
    else arrived transfer s₁ (wait_while_busy example_read_callback wakes s₁.input)

-- What follows the wait for the last transfer.
abbrev pub turn : Transfer → Usb → Waited → Fetched
turn transfer s stopped = ended (reply (neg erestartsys) []) (unlock_input s)
turn transfer s still = waiting s
turn transfer s (idle c rest) = submit_read transfer rest (record s { input = c })

unfoldable pub fetch : Bool → Transfer → List Wake → Usb → Fetched
fetch interrupted transfer wakes s =
    let s₁ = lock_input s in
    if interrupted
    then ended (reply (neg erestartsys) []) s
    else (if not s₁.present
        then ended (reply (neg enodev) []) (unlock_input s₁)
        else turn transfer s₁ (wait_while_busy example_read_callback wakes s₁.input))

-- `lg` is a `size_t`: `lg <= 0` holds at 0 alone. The answer and the offset of the file.
unfoldable pub copy_text : ℕ → ℕ → ℕ → List ℕ → Reply × ℕ
copy_text size left offset k_buffer =
    let lg = sub_u64 (length (c_string k_buffer) + 1) offset in
    let count = if ltb size lg then size else lg in
    if lg == 0
    then (reply (pos 0) [], offset)
    else (if ltb (length k_buffer) (offset + count)
        then (out_of_bounds, offset)
        else (if not (left == 0)
            then (reply (neg efault) [], offset)
            else (reply (pos count) (take count (drop offset k_buffer)), offset + count)))

-- What follows the start of a read.
abbrev pub started : ℕ → ℕ → ℕ → Fetched → Outcome × ℕ
started size left offset (ended r s) = (returned r s, offset)
started size left offset (waiting s) = (asleep s, offset)
started size left offset (ready s) =
    let (r, next) = copy_text size left offset s.k_buffer in (returned r s, next)

unfoldable pub example_read : Bool → Transfer → List Wake → ℕ → ℕ → ℕ → Usb → Outcome × ℕ
example_read interrupted transfer wakes size left offset s =
    if not (offset == 0)
    then started size left offset (ready s)
    else started size left offset (fetch interrupted transfer wakes s)
