-- ===== src/Usb/Ready/Writes.antt =====
-- What the write system call leaves of the mutexes and the busy flags.
use ild.Base.{
  ℕ, ◌%◌, ◌≡◌, inl, inr, refl, ◌==◌, is_zero, Bool, true, false, not, List, [], ◌∷◌, ◌++◌, Option,
  some, map, set, ◌-◌, Option-cases,
}
use mathlib.Core.Path.{subst, sym}
use ild.Kernel.Copy.{from_user}
use ild.Counter.{c_string}
use ild.Usb.{Usb, Channel, Wake, Waited, wait_while_busy, example_write_callback}
use ild.Usb.Write
use ild.Usb.Idle.{IsIdle, LeavesWrite, wait_idle, Ends, wait-Ends, either, callback_idle}

module _ {s : Usb} (i : IsIdle s) where
  with_output :
      (c : Channel) (sent : List (List ℕ))
      → c.locked ≡ false
      → c.busy ≡ false
      → IsIdle (record s { output = c; sent = sent })
  with_output c sent e f = record {
    unlocked = i.unlocked;
    output_unlocked = e;
    output_idle = f;
    input_unlocked = i.input_unlocked;
    input_idle = i.input_idle;
  }

  written-Leaves :
      (transfer : Write.Transfer) (size : ℕ) (w : Waited) (buffer : Option (List ℕ))
      → (sent : List (List ℕ))
      → let c = record s.output { locked = true; busy = true; buffer = buffer } in
        Ends example_write_callback c w
        → LeavesWrite (Write.written transfer size (record s { output = c; sent = sent }) w)
  unfolding example_write_callback
  written-Leaves transfer size w buffer sent ends =
      let c = record s.output { locked = true; busy = true; buffer = buffer } in
      let after = λ (v : Waited).
        LeavesWrite (Write.written transfer size (record s { output = c; sent = sent }) v) in
      let off = record c { locked = false; busy = false } in
      elim ends [
        | inl e ↦ subst after (sym e) (with_output off sent refl refl)
        | inr (inl e) ↦ subst after (sym e) (record {
          locked_ = refl;
          busy_ = refl;
          unlocked = i.unlocked;
          other_unlocked = i.input_unlocked;
          other_idle = i.input_idle;
        })
        | inr (inr (ws, e)) ↦ subst after (sym e) (
            either LeavesWrite (not (is_zero transfer.status)) _ _ (with_output off sent refl refl)
              (with_output off sent refl refl))
      ]

  submit_packet-Leaves :
      (transfer : Write.Transfer) (wakes : List Wake) (values : List ℕ) (size : ℕ)
      → LeavesWrite (Write.submit_packet transfer wakes values size (Write.lock_output s))
  unfolding Write.submit_packet
  submit_packet-Leaves transfer wakes values size =
      let packet = map (λ v. v % 256) values in
      let c = record s.output { locked = true; busy = true; buffer = some packet } in
      either LeavesWrite (not (is_zero transfer.submit)) _ _
        (with_output (record c { locked = false; busy = false }) s.sent refl refl)
        (written-Leaves transfer size (wait_while_busy example_write_callback wakes c) (some packet)
          (s.sent ++ packet ∷ []) (wait-Ends example_write_callback wakes c refl (callback_idle c)))

  write_values-Leaves :
      (transfer : Write.Transfer) (wakes : List Wake) (values : List ℕ) (size : ℕ)
      → LeavesWrite (Write.write_values transfer wakes values size (Write.lock_output s))
  unfolding Write.write_values
  write_values-Leaves transfer wakes values size =
      let c = record s.output { locked = true } in
      either LeavesWrite (not s.present) _ _
        (with_output (record s.output { locked = false }) s.sent refl i.output_idle)
        (subst (λ w. LeavesWrite (Write.turn transfer values size (Write.lock_output s) w))
          (sym (wait_idle example_write_callback wakes c i.output_idle))
          (submit_packet-Leaves transfer wakes values size))

  pub example_write-Leaves :
      (sscanf : List ℕ → Option (List ℕ)) (kmalloc interrupted : Bool) (transfer : Write.Transfer)
      → (wakes : List Wake) (u_buffer : List ℕ) (size left : ℕ)
      → LeavesWrite
          (Write.example_write sscanf kmalloc interrupted transfer wakes u_buffer size left s)
  unfolding Write.example_write
  example_write-Leaves sscanf kmalloc interrupted transfer wakes u_buffer size left =
      let text = c_string (set (from_user u_buffer size left) (size - 1) 0) in
      either LeavesWrite (not kmalloc) _ _ i (
        either LeavesWrite (not (left == 0)) _ _ i (
          either LeavesWrite (size == 0) _ _ i (elim (Option-cases (sscanf text)) [
            | inl e ↦ rw e i
            | inr (values, e) ↦ rw e (
                either LeavesWrite interrupted _ _ i
                  (write_values-Leaves transfer wakes values size))
          ])))
