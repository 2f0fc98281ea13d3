-- ===== src/Usb/Transfers.antt =====
-- What the openings, the writes and the reads of example-VII-05.c do to the device and to the
-- caller.
use ild.Base.{
  ℕ, ◌-◌, ◌%◌, ◌^◌, ◌<◌, ◌≡◌, refl, ◌==◌, pos, neg, is_zero, length, true, false, if◌then◌else◌,
  List, [], ◌∷◌, ◌++◌, Option, some, map, set, replicate, arith,
}
use ild.Kernel.Errno.{ebusy, eio, erestartsys}
use ild.Kernel.Copy.{reply, out_of_bounds, from_user}
use ild.Counter.{c_string}
use ild.Usb.{
  Usb, example_open, example_release, Wake, timeout, completed, example_write_callback, returned,
}
use ild.Usb.Idle.{IsIdle, wait_idle, wait_timeouts, callback_idle}
use ild.Usb.Write
use ild.Usb.Read.{copy_text}

-- A device that is there and closed is opened once, and a second opening returns -EBUSY. A release
-- makes it as it was; one that a signal interrupts does not, and the device can then not be opened
-- again.
pub usb_open-release :
    {s : Usb}
    → IsIdle s
    → s.present ≡ true
    → s.open_count ≡ 0
    → let opened = (example_open false s).1 in
      ((example_open false s).0 ≡ pos 0)
      × (example_open false opened ≡ (neg ebusy, opened))
      × (example_release false opened ≡ (pos 0, s))
      × ((example_release true opened).0 ≡ neg erestartsys)
      × (example_open false (example_release true opened).1 ≡ (neg ebusy, opened))
unfolding example_open example_release
usb_open-release {s} i there closed = let off = i.unlocked in ground arith

-- With the device idle, a write of eight numbers that can be copied from the caller and is not
-- interrupted submits one packet of their low bytes, waits until the transfer is completed, however
-- many seconds that takes, and returns its length, or -EIO if the transfer failed, or the error of
-- a submission that was refused; the device is then idle.
pub write-Sends :
    (sscanf : List ℕ → Option (List ℕ)) (transfer : Write.Transfer) (n : ℕ) (ws : List Wake)
    → (u_buffer : List ℕ) (size : ℕ) (values : List ℕ) {s : Usb} → IsIdle s
    → s.present ≡ true
    → (size == 0) ≡ false
    → sscanf (c_string (set (from_user u_buffer size 0) (size - 1) 0)) ≡ some values
    → let packet = map (λ v. v % 256) values in
      let c = record s.output { buffer = some packet; busy = false; locked = false } in
      Write.example_write sscanf true false transfer
        (replicate n timeout ++ completed ∷ ws)
        u_buffer
        size
        0
        s
      ≡ (if is_zero transfer.submit
          then returned
              (reply (if is_zero transfer.status then pos size else neg eio) [])
              (record s { output = c; sent = s.sent ++ packet ∷ [] })
          else returned (reply transfer.submit []) (record s { output = c }))
unfolding Write.example_write Write.write_values Write.submit_packet example_write_callback
write-Sends sscanf transfer n ws u_buffer size values {s} i there some_bytes parsed =
    let packet = map (λ v. v % 256) values in
    let wakes = replicate n timeout ++ completed ∷ ws in
    let c = record s.output { locked = true } in
    let d = record c { busy = true; buffer = some packet } in
    rw
      (
        some_bytes,
        parsed,
        there,
        wait_idle example_write_callback wakes c i.output_idle,
        wait_timeouts example_write_callback n ws d refl (callback_idle d),
      )
      (ground arith)

-- At an offset past its 64 bytes, up to 2^63, a read with any room takes the text for endless, as
-- the length is a `size_t`, and copies from outside the buffer.
pub copy_text_overrun :
    (size left offset : ℕ) (k_buffer : List ℕ)
    → length k_buffer ≡ 64
    → length (c_string k_buffer) < 64
    → 64 < offset
    → offset < 2 ^ 63
    → 0 < size
    → size < 2 ^ 63
    → copy_text size left offset k_buffer ≡ (out_of_bounds, offset)
unfolding copy_text
copy_text_overrun size left offset k_buffer len text h k p q = ground arith
