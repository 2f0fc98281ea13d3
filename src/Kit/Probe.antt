-- ===== src/Kit/Probe.antt =====
-- The probes and the disconnections of exemples/07-utilisation-bus-usb/example-VII-04.c and
-- example-VII-03.c.
use ild.Base.{
  ℕ, ltb, ℤ, pos, neg, is_zero, Bool, true, false, not, if◌then◌else◌, List, [], ◌∷◌, Option, none,
  some, replicate, ◌≡◌, arith,
}
use ild.Kernel.Errno.{einval, enodev, enomem}
use ild.Kernel.Held.{Held, acquire, release, urb, memory, usb_minor, usb_ref}
use ild.Usb.{Endpoint, out_buffer_size}
use ild.Usb.Probe.{is_missing}
use ild.Kit.{Kit}
use ild.Kit.Plain.{Plain}

-- The endpoints of the interface, and what the kernel's calls return.
pub record Env : Type 0 where
  pub endpoints : List Endpoint
  pub alloc_urb : Bool
  pub kmalloc : Bool
  pub register_dev : ℤ

-- The last interrupt endpoint of the output, or the one that was there.
unfoldable pub scan_output : List Endpoint → Option Endpoint → Option Endpoint
scan_output [] output = output
scan_output (e ∷ es) output =
    scan_output es (if not e.is_in then (if e.is_interrupt then some e else output) else output)

abbrev max_packet_size : Option Endpoint → ℕ
max_packet_size none = 0
max_packet_size (some e) = e.max_packet_size

-- The part of the probe that both drivers have, and its unwinding.
unfoldable pub set_up : Env → Option Endpoint → Held → ℤ × Held
set_up env found h =
    let h₁ = acquire usb_ref h in
    let h₂ = acquire (urb 0) h₁ in
    let h₃ = acquire (memory 0) h₂ in
    if is_missing found
    then (neg enodev, h₁)
    else (if ltb (max_packet_size found) out_buffer_size
        then (neg einval, h₁)
        else (if not env.alloc_urb
            then (neg enomem, h₁)
            else (if not env.kmalloc
                then (neg enomem, release (urb 0) h₂)
                else (if not (is_zero env.register_dev)
                    then (env.register_dev, release (urb 0) (release (memory 0) h₃))
                    else (pos 0, acquire usb_minor h₃)))))

abbrev forget : Kit → Kit
forget s = record s { present = false; endpoint = none; urb = false; buffer = none }

unfoldable pub example_probe : Env → Kit → Held → (ℤ × Held) × Kit
example_probe env s h =
    let found = scan_output env.endpoints s.endpoint in
    let result = set_up env found h in
    (
      result,
      if is_zero result.0
          then record s {
            present = true;
            endpoint = found;
            urb = true;
            buffer = some (replicate out_buffer_size 0);
            busy = false;
          }
          else forget s,
    )

unfoldable pub example_disconnect : Kit → Held → Held × Kit
example_disconnect s h = (release (urb 0) (release (memory 0) (release usb_minor h)), forget s)

abbrev forget_plain : Plain → Plain
forget_plain s = record s { present = false; endpoint = none; urb = false; buffer = none }

unfoldable pub plain_probe : Env → Plain → Held → (ℤ × Held) × Plain
plain_probe env s h =
    let found = scan_output env.endpoints s.endpoint in
    let result = set_up env found h in
    (
      result,
      if is_zero result.0
          then record s {
            present = true;
            endpoint = found;
            urb = true;
            buffer = some (replicate out_buffer_size 0);
          }
          else forget_plain s,
    )

unfoldable pub plain_disconnect : Plain → Held → Held × Plain
plain_disconnect s h = (release (urb 0) (release (memory 0) (release usb_minor h)), forget_plain s)

module _ (env : Env) (s : Kit) (p : Plain) (h : Held) where
  -- A probe of the two drivers that only write is refused and leaves no device bound, or binds a
  -- device that has an endpoint; once it is disconnected, or refused, all is given back but the
  -- reference to the device.
  pub kit_probe-disconnect :
      let ((err, held), s') = example_probe env s h in
      let ((plain_err, plain_held), p') = plain_probe env p h in
      (s'.present ≡ is_zero err)
      × ((if is_zero err then is_missing s'.endpoint else s'.urb) ≡ false)
      × ((if is_zero err then (example_disconnect s' held).0 else held) ≡ acquire usb_ref h)
      × (p'.present ≡ is_zero plain_err)
      × ((if is_zero plain_err then is_missing p'.endpoint else p'.urb) ≡ false)
      × ((if is_zero plain_err then (plain_disconnect p' plain_held).0 else plain_held)
          ≡ acquire usb_ref h)
  unfolding example_probe example_disconnect plain_probe plain_disconnect set_up
  kit_probe-disconnect = ground arith
