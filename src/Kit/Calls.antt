-- ===== src/Kit/Calls.antt =====
-- What the system calls of exemples/07-utilisation-bus-usb/example-VII-04.c keep, and the transfer
-- that an interrupted write leaves behind.
use ild.Base.{
  ℕ, ◌≡◌, refl, ◌∙◌, ap, neg, is_zero, Bool, true, false, not, ◌&&◌, List, [], ◌∷◌, ◌++◌, ◌%◌, map,
  Option, some, arith,
}
use ild.Kernel.Errno.{erestartsys}
use ild.Usb.{Wake, signal}
use ild.Usb.Write.{Transfer}
use ild.Usb.Idle.{either, else_branch}
use ild.Kit.{Kit, returned, wait_while_busy, example_open, example_release, example_write_callback}
use ild.Kit.Write.{
  submit_packet, turn, finish, write_values, Parsed, numbers, refused, misplaced, parse_values,
  write_parsed, example_write,
}
use ild.Kit.Flight.{IsFree, Leaves, wait_free, write_values-Leaves}

example_open-IsFree :
    (interrupted : Bool) (s : Kit) → IsFree s → IsFree (example_open interrupted s).1
unfolding example_open
example_open-IsFree interrupted s h = ground arith

example_release-IsFree :
    (interrupted : Bool) (wake : Wake) (s : Kit)
    → IsFree s
    → IsFree (example_release interrupted wake s).1
unfolding example_release
example_release-IsFree interrupted wake s h = ground arith

write_parsed-Leaves :
    (interrupted : Bool) (transfer : Transfer) (wakes : List Wake) (length : ℕ) (s : Kit)
    (parsed : Parsed)
    → IsFree s
    → Leaves (write_parsed interrupted transfer wakes length s parsed)
unfolding write_parsed
write_parsed-Leaves interrupted transfer wakes length s misplaced h = h
write_parsed-Leaves interrupted transfer wakes length s (refused err) h = h
write_parsed-Leaves interrupted transfer wakes length s (numbers values) h =
    either Leaves interrupted (returned (neg erestartsys) s)
      (write_values transfer wakes values length (record s { out_locked = true })) h
      (write_values-Leaves transfer wakes values length (record s { out_locked = true }) (h.0, refl)
        h.2)

-- From a state with both mutexes free and the flag down, an opening, a release and a write that
-- ends leave such a state, whatever they are given and however they end; a write that does not end
-- sleeps with its mutex and the flag.
pub kit_calls-IsFree :
    (sscanf : List ℕ → Option (List ℕ)) (kmalloc interrupted : Bool) (transfer : Transfer)
    (wakes : List Wake) (wake : Wake) (data_ : List ℕ) (length left : ℕ) (s : Kit)
    → IsFree s
    → IsFree (example_open interrupted s).1
      × IsFree (example_release interrupted wake s).1
      × Leaves (example_write sscanf kmalloc interrupted transfer wakes data_ length left s)
unfolding example_write
kit_calls-IsFree sscanf kmalloc interrupted transfer wakes wake data_ length left s h = (
  example_open-IsFree interrupted s h,
  example_release-IsFree interrupted wake s h,
  write_parsed-Leaves interrupted transfer wakes length s
      (parse_values sscanf kmalloc data_ length left) h,
)

-- A release waits for the transfer or kills it exactly when the flag is up.
release-flying :
    (wake : Wake) (s : Kit) → (example_release false wake s).1.flying ≡ (s.flying && not s.busy)
unfolding example_release example_write_callback
release-flying wake s = ground arith

module _ (transfer : Transfer) (ws : List Wake) (values : List ℕ) (length : ℕ) (s : Kit) where
  -- The state in which a signal leaves the write, once the packet was submitted.
  abbrev left_flying : Kit
  left_flying =
      let packet = map (λ v. v % 256) values in
      record s {
        busy = false;
        buffer = some packet;
        out_locked = false;
        flying = true;
        sent = s.sent ++ packet ∷ [];
      }

  interrupted_submit :
      is_zero transfer.submit ≡ true
      → submit_packet transfer (signal ∷ ws) values length s
        ≡ returned (neg erestartsys) left_flying
  unfolding submit_packet wait_while_busy finish
  interrupted_submit e = rw e refl

interrupted_values :
    (transfer : Transfer) (ws : List Wake) (values : List ℕ) (length : ℕ) (s : Kit)
    → s.present ≡ true
    → s.busy ≡ false
    → is_zero transfer.submit ≡ true
    → write_values transfer (signal ∷ ws) values length s
      ≡ returned (neg erestartsys) (left_flying transfer ws values length s)
unfolding write_values turn
interrupted_values transfer ws values length s p b e =
    else_branch (not s.present) _ _ (ap not p)
    ∙ ap (turn transfer values length) (wait_free (signal ∷ ws) s b)
    ∙ interrupted_submit transfer ws values length s e

-- A write that a signal interrupts once its packet is submitted takes the flag down and leaves the
-- transfer under way, and the release that follows neither waits for it nor kills it, whereas a
-- release that finds the flag up always does one or the other: whatever the state, what is under
-- way after it is what was under way with the flag down.
pub interrupted_write-flying :
    (sscanf : List ℕ → Option (List ℕ)) (kmalloc : Bool) (transfer : Transfer) (ws : List Wake)
    (wake : Wake) (data_ values : List ℕ) (length left : ℕ) (s other : Kit)
    → parse_values sscanf kmalloc data_ length left ≡ numbers values
    → s.present ≡ true
    → s.busy ≡ false
    → is_zero transfer.submit ≡ true
    → (t : Kit) × (example_write sscanf kmalloc false transfer (signal ∷ ws) data_ length left s
        ≡ returned (neg erestartsys) t)
      × (t.flying ≡ true)
      × ((example_release false wake t).1.flying ≡ true)
      × ((example_release false wake other).1.flying ≡ (other.flying && not other.busy))
unfolding example_write write_parsed
interrupted_write-flying sscanf kmalloc transfer ws wake data_ values length left s other n p b e =
    let held = record s { out_locked = true } in
    let t = left_flying transfer ws values length held in
    (
      t,
      ap (write_parsed false transfer (signal ∷ ws) length s) n
          ∙ interrupted_values transfer ws values length held p b e,
      refl,
      release-flying wake t,
      release-flying wake other,
    )
