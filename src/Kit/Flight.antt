-- ===== src/Kit/Flight.antt =====
-- The flag of the output and the transfers that it stands for.
use mathlib.Core.Path.{subst}
use ild.Base.{
  ℕ, ◌≡◌, ◌⊎◌, inl, inr, refl, sym, ◌∙◌, pos, neg, is_zero, true, false, not, List, [], ◌∷◌, ◌++◌,
  some, map, ◌%◌,
}
use ild.Kernel.Errno.{eio, enodev}
use ild.Usb.{Wake, signal, timeout, completed}
use ild.Usb.Idle.{then_branch, either}
use ild.Usb.Write.{Transfer}
use ild.Kit.{
  Kit, Waited, idle, stopped, still, wait_while_busy, Outcome, returned, asleep, out_of_bounds,
  example_write_callback,
}
use ild.Kit.Write.{unlock, abandon, finish, submit_packet, turn, write_values}

-- Both mutexes are free, and the flag tells of no transfer.
abbrev pub IsFree : Kit → Type 0
IsFree s = (s.locked ≡ false) × (s.out_locked ≡ false) × (s.busy ≡ false)

-- What a write may leave: a write that sleeps holds its mutex and the flag.
abbrev pub Leaves : Outcome → Type 0
Leaves (returned r s) = IsFree s
Leaves (asleep s) = (s.locked ≡ false) × (s.out_locked ≡ true) × (s.busy ≡ true)
Leaves (out_of_bounds s) = IsFree s

callback_free : (s : Kit) → (example_write_callback s).busy ≡ false
unfolding example_write_callback
callback_free s = refl

pub wait_free : (ws : List Wake) (s : Kit) → s.busy ≡ false → wait_while_busy ws s ≡ idle s ws
unfolding wait_while_busy
wait_free [] s e = rw e
wait_free (signal ∷ ws) s e = rw e
wait_free (timeout ∷ ws) s e = rw e
wait_free (completed ∷ ws) s e = rw e

-- The write's mutex is held through its waits.
abbrev IsHeld : Kit → Type 0
IsHeld s = (s.locked ≡ false) × (s.out_locked ≡ true)

abbrev Ends : Kit → Waited → Type 0
Ends s w =
    (w ≡ stopped s)
    ⊎ ((w ≡ still s) ⊎ ((ws : List Wake) × (w ≡ idle (example_write_callback s) ws)))

wait-Ends : (ws : List Wake) (s : Kit) → s.busy ≡ true → Ends s (wait_while_busy ws s)
unfolding wait_while_busy
wait-Ends [] s e = inr (inl (then_branch s.busy _ _ e))
wait-Ends (signal ∷ ws) s e = inl (then_branch s.busy _ _ e)
wait-Ends (timeout ∷ ws) s e = subst (Ends s) (sym (then_branch s.busy _ _ e)) (wait-Ends ws s e)
wait-Ends (completed ∷ ws) s e =
    inr (
      inr
        (ws, then_branch s.busy _ _ e ∙ wait_free ws (example_write_callback s) (callback_free s)))

finish-Leaves :
    (transfer : Transfer) (length : ℕ) (s : Kit) (w : Waited)
    → IsHeld s
    → s.busy ≡ true
    → Ends s w
    → Leaves (finish transfer length w)
unfolding finish example_write_callback
finish-Leaves transfer length s w h e (inl f) = rw f (h.0, refl, refl)
finish-Leaves transfer length s w h e (inr (inl f)) = rw f (h.0, h.1, e)
finish-Leaves transfer length s w h e (inr (inr (ws, f))) = rw f (
    either Leaves (not (is_zero transfer.status))
      (returned (neg eio) (abandon (example_write_callback s)))
      (returned (pos length) (unlock (example_write_callback s))) (h.0, refl, refl)
      (h.0, refl, refl))

submit-Leaves :
    (transfer : Transfer) (ws : List Wake) (values : List ℕ) (length : ℕ) (s : Kit)
    → IsHeld s
    → Leaves (submit_packet transfer ws values length s)
unfolding submit_packet
submit-Leaves transfer ws values length s h =
    let packet = map (λ v. v % 256) values in
    let s₁ = record s { busy = true; buffer = some packet } in
    let s₂ = record s₁ { flying = true; sent = s.sent ++ packet ∷ [] } in
    either Leaves (not (is_zero transfer.submit)) (returned transfer.submit (abandon s₁))
      (finish transfer length (wait_while_busy ws s₂)) (h.0, refl, refl)
      (finish-Leaves transfer length s₂ (wait_while_busy ws s₂) h refl (wait-Ends ws s₂ refl))

pub write_values-Leaves :
    (transfer : Transfer) (ws : List Wake) (values : List ℕ) (length : ℕ) (s : Kit)
    → IsHeld s
    → s.busy ≡ false
    → Leaves (write_values transfer ws values length s)
unfolding write_values turn
write_values-Leaves transfer ws values length s h e = rw (wait_free ws s e) (
    either Leaves (not s.present) (returned (neg enodev) (unlock s))
      (submit_packet transfer ws values length s) (h.0, refl, e)
      (submit-Leaves transfer ws values length s h))
