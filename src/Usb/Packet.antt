-- ===== src/Usb/Packet.antt =====
-- What a caller that reads the device of example-VII-05.c gets.
use ild.Base.{
  ℕ, ◌+◌, ◌%◌, ◌≤◌, ◌≡◌, refl, ap, ◌∙◌, ◌==◌, pos, ltb, length, true, false, List, [], ◌∷◌, ◌++◌,
  some, take, drop, replicate, length-append, length-take, length-drop, take-append, append_assoc,
  append-nil, sub_u64, arith,
}
use ild.Kernel.Copy.{reply, overwrite}
use ild.Kernel.Format.{
  decimal, IsClean, decimal-IsClean, append-IsClean, take-IsClean, tail-IsClean,
}
use ild.Counter.{c_string}
use ild.Usb.{Usb, Wake, timeout, completed, example_read_callback, returned}
use ild.Usb.Idle.{IsIdle, wait_idle, wait_timeouts, read_callback_idle}
use ild.Usb.Read.{
  received, Transfer, numbers, packet_text, copy_text, example_read, fetch, submit_read, ready,
}

c_string-IsClean : (xs ys : List ℕ) → IsClean xs → c_string (xs ++ ys) ≡ xs ++ c_string ys
c_string-IsClean [] ys h = refl
c_string-IsClean (x ∷ xs) ys h = rw h.0 (ap (λ r. x ∷ r) (c_string-IsClean xs ys h.1))

numbers-IsClean : (bytes : List ℕ) → IsClean (numbers bytes)
numbers-IsClean [] = (refl, tt)
numbers-IsClean (b ∷ bytes) = (
  refl,
  append-IsClean (decimal (b % 256)) (numbers bytes) (decimal-IsClean (b % 256))
      (numbers-IsClean bytes),
)

packet_text-IsClean : (bytes : List ℕ) → IsClean (packet_text bytes)
unfolding packet_text
packet_text-IsClean bytes =
    take-IsClean 63 (drop 1 (numbers (take 8 bytes)))
      (tail-IsClean (numbers (take 8 bytes)) (numbers-IsClean (take 8 bytes)))

length-packet_text : (bytes : List ℕ) → length (packet_text bytes) ≤ 63
unfolding packet_text
length-packet_text bytes = omega (arith, length-take 63 (drop 1 (numbers (take 8 bytes))))

module _ (text old : List ℕ) (size : ℕ) (clean : IsClean text) (short : length text ≤ 63)
    (full : length old ≡ 64) (room : 64 ≤ size) where
  stored : List ℕ
  stored = overwrite (text ++ 0 ∷ []) old

  strlen-stored : length (c_string stored) ≡ length text
  unfolding stored
  strlen-stored =
      ap (λ r. length (c_string r))
        (append_assoc text (0 ∷ []) (drop (length (text ++ 0 ∷ [])) old))
      ∙ ap length (c_string-IsClean text (0 ∷ drop (length (text ++ 0 ∷ [])) old) clean)
      ∙ ap length (append-nil text)

  length-stored : length stored ≡ 64
  unfolding stored
  length-stored = omega (
    arith,
    length-append (text ++ 0 ∷ []) (drop (length (text ++ 0 ∷ [])) old),
    length-append text (0 ∷ []),
    length-drop (length (text ++ 0 ∷ [])) old,
  )

  take-stored : take (length text + 1) stored ≡ text ++ 0 ∷ []
  unfolding stored
  take-stored =
      let e : length text + 1 ≡ length (text ++ 0 ∷ []) =
        omega (arith, length-append text (0 ∷ [])) in
      rw e (take-append (text ++ 0 ∷ []) (drop (length (text ++ 0 ∷ [])) old))

  copy_text-start :
      copy_text size 0 0 stored ≡ (reply (pos (length text + 1)) (text ++ 0 ∷ []), length text + 1)
  unfolding copy_text
  copy_text-start =
      let whole : sub_u64 (length text + 1) 0 ≡ length text + 1 = ground arith in
      let room_ : ltb size (length text + 1) ≡ false = ground arith in
      let some_ : (length text + 1 == 0) ≡ false = ground arith in
      let inside : ltb 64 (0 + (length text + 1)) ≡ false = ground arith in
      rw (strlen-stored, whole, room_, some_, length-stored, inside) (rw take-stored (ground arith))

  copy_text-end : copy_text size 0 (length text + 1) stored ≡ (reply (pos 0) [], length text + 1)
  unfolding copy_text
  copy_text-end =
      let none_ : sub_u64 (length text + 1) (length text + 1) ≡ 0 = ground arith in
      rw (strlen-stored, none_)

-- The state after a packet was read.
abbrev pub fetched : List ℕ → Usb → Usb
fetched bytes s = record s {
  input = record s.input { buffer = some (received bytes s.input); busy = false; locked = false };
  k_buffer = overwrite (packet_text (received bytes s.input) ++ 0 ∷ []) s.k_buffer;
}

fetch_packet :
    (bytes : List ℕ) (n : ℕ) (ws : List Wake) {s : Usb}
    → IsIdle s
    → s.present ≡ true
    → length bytes ≤ 8
    → fetch false
        (record { submit = pos 0; status = pos 0; bytes = bytes })
        (replicate n timeout ++ completed ∷ ws)
        s
      ≡ ready (fetched bytes s)
unfolding fetch submit_read example_read_callback
fetch_packet bytes n ws {s} i there small =
    let c = record s.input { locked = true } in
    let d = record c { busy = true } in
    let fits : ltb 8 (length bytes) ≡ false = ground arith in
    rw (
      there,
      wait_idle example_read_callback (replicate n timeout ++ completed ∷ ws) c i.input_idle,
      wait_timeouts example_read_callback n ws d refl (read_callback_idle d),
      fits,
    )

-- With the device idle, and room for 64 bytes, a read at the start of the file waits until the
-- device has sent a packet of at most eight bytes, however many seconds that takes, and gives the
-- whole text of the eight bytes of the buffer and its NUL; the next read is the end of the file.
pub read-read :
    (bytes : List ℕ) (n size : ℕ) (wakes ws : List Wake) {s : Usb}
    → IsIdle s
    → s.present ≡ true
    → length s.k_buffer ≡ 64
    → length bytes ≤ 8
    → 64 ≤ size
    → let transfer : Transfer = record { submit = pos 0; status = pos 0; bytes = bytes } in
      let text = packet_text (received bytes s.input) in
      let s' = fetched bytes s in
      (example_read false transfer (replicate n timeout ++ completed ∷ ws) size 0 0 s
        ≡ (returned (reply (pos (length text + 1)) (text ++ 0 ∷ [])) s', length text + 1))
      × (example_read false transfer wakes size 0 (length text + 1) s'
          ≡ (returned (reply (pos 0) []) s', length text + 1))
unfolding example_read stored
read-read bytes n size wakes ws {s} i there full small room =
    let buffer = received bytes s.input in
    let text = packet_text buffer in
    let clean = packet_text-IsClean buffer in
    let short = length-packet_text buffer in
    let later : (length text + 1 == 0) ≡ false = ground arith in
    (
      rw (
        fetch_packet bytes n ws i there small,
        copy_text-start text s.k_buffer size clean short full room,
      ),
      rw (later, copy_text-end text s.k_buffer size clean short full room),
    )
