-- ===== src/Usb/Ready/Reads.antt =====
-- What the read system call leaves of the mutexes and the busy flags.
use ild.Base.{
  ℕ, ◌≡◌, inl, inr, refl, ◌==◌, is_zero, ltb, length, ◌≤◌, Bool, true, false, not, List, [], ◌∷◌,
  ◌++◌, some, Bool-cases, arith,
}
use mathlib.Core.Path.{subst, sym}
use ild.Kernel.Copy.{overwrite}
use ild.Usb.{in_buffer_size, Usb, Channel, Wake, Waited, wait_while_busy, example_read_callback}
use ild.Usb.Read
use ild.Usb.Read.{Fetched, ready, ended, waiting}
use ild.Usb.Idle.{
  IsIdle, LeavesRead, LeavesFetch, wait_idle, Ends, wait-Ends, either_case, read_callback_idle,
}

module _ {s : Usb} (i : IsIdle s) where
  with_input :
      (c : Channel) (k_buffer : List ℕ)
      → c.locked ≡ false
      → c.busy ≡ false
      → IsIdle (record s { input = c; k_buffer = k_buffer })
  with_input c k_buffer e f = record {
    unlocked = i.unlocked;
    output_unlocked = i.output_unlocked;
    output_idle = i.output_idle;
    input_unlocked = e;
    input_idle = f;
  }

  arrived-Leaves :
      (transfer : Read.Transfer) (w : Waited)
      → length transfer.bytes ≤ in_buffer_size
      → let c = record s.input { locked = true; busy = true } in
        Ends example_read_callback c w
        → LeavesFetch (Read.arrived transfer (record s { input = c }) w)
  unfolding example_read_callback
  arrived-Leaves transfer w small ends =
      let c = record s.input { locked = true; busy = true } in
      let after = λ (v : Waited). LeavesFetch (Read.arrived transfer (record s { input = c }) v) in
      let full = record c {
        locked = false;
        busy = false;
        buffer = some (Read.received transfer.bytes c);
      } in
      elim ends [
        | inl e ↦
            subst after (sym e)
              (with_input (record c { locked = false; busy = false }) s.k_buffer refl refl)
        | inr (inl e) ↦ subst after (sym e) (record {
          locked_ = refl;
          busy_ = refl;
          unlocked = i.unlocked;
          other_unlocked = i.output_unlocked;
          other_idle = i.output_idle;
        })
        | inr (inr (ws, e)) ↦ subst after (sym e) (
            either_case LeavesFetch (ltb in_buffer_size (length transfer.bytes)) _ _
              (λ long. absurd (ground arith))
              (λ _.
                either_case LeavesFetch (not (is_zero transfer.status)) _ _
                  (λ _. with_input full s.k_buffer refl refl)
                  (λ _.
                    with_input full
                      (overwrite (Read.packet_text (Read.received transfer.bytes c) ++ 0 ∷ [])
                        s.k_buffer)
                      refl refl)))
      ]

  submit_read-Leaves :
      (transfer : Read.Transfer) (wakes : List Wake)
      → length transfer.bytes ≤ in_buffer_size
      → LeavesFetch (Read.submit_read transfer wakes (Read.lock_input s))
  unfolding Read.submit_read
  submit_read-Leaves transfer wakes small =
      let c = record s.input { locked = true; busy = true } in
      either_case LeavesFetch (not (is_zero transfer.submit)) _ _
        (λ _. with_input (record c { locked = false; busy = false }) s.k_buffer refl refl)
        (λ _.
          arrived-Leaves transfer (wait_while_busy example_read_callback wakes c) small
            (wait-Ends example_read_callback wakes c refl (read_callback_idle c)))

  fetch-Leaves :
      (interrupted : Bool) (transfer : Read.Transfer) (wakes : List Wake)
      → length transfer.bytes ≤ in_buffer_size
      → LeavesFetch (Read.fetch interrupted transfer wakes s)
  unfolding Read.fetch
  fetch-Leaves interrupted transfer wakes small =
      let c = record s.input { locked = true } in
      either_case LeavesFetch interrupted _ _ (λ _. i)
        (λ _.
          either_case LeavesFetch (not s.present) _ _
            (λ _. with_input (record s.input { locked = false }) s.k_buffer refl i.input_idle)
            (λ _.
              subst (λ w. LeavesFetch (Read.turn transfer (Read.lock_input s) w))
                (sym (wait_idle example_read_callback wakes c i.input_idle))
                (submit_read-Leaves transfer wakes small)))

  pub example_read-Leaves :
      (interrupted : Bool) (transfer : Read.Transfer) (wakes : List Wake) (size left offset : ℕ)
      → length transfer.bytes ≤ in_buffer_size
      → LeavesRead (Read.example_read interrupted transfer wakes size left offset s).0
  unfolding Read.example_read
  example_read-Leaves interrupted transfer wakes size left offset small =
      elim (Bool-cases (offset == 0)) [
        | inl e ↦ rw e (
            finishes (Read.fetch interrupted transfer wakes s)
              (fetch-Leaves interrupted transfer wakes small))
        | inr e ↦ rw e i
      ]
    where
      finishes : (f : Fetched) → LeavesFetch f → LeavesRead (Read.started size left offset f).0
      finishes (ready t) h = h
      finishes (ended r t) h = h
      finishes (waiting t) h = h
