-- ===== src/Usb/Probe.antt =====
-- The probe and the disconnection of the device in example-VII-05.c.
use ild.Base.{
  ℕ, ltb, ℤ, pos, neg, is_zero, Bool, true, false, not, if◌then◌else◌, List, [], ◌∷◌, Option, none,
  some, replicate, ◌≡◌, arith,
}
use ild.Kernel.Errno.{einval, enodev, enomem}
use ild.Kernel.Held.{Held, acquire, release, urb, memory, usb_minor, usb_ref}
use ild.Usb.{Usb, Endpoint, out_buffer_size, in_buffer_size}

-- The endpoints of the interface, and what the kernel's calls return. The URBs and the buffers are
-- numbered 0 for the output and 1 for the input.
pub record Env : Type 0 where
  pub endpoints : List Endpoint
  pub alloc_urb : ℕ → Bool
  pub kmalloc : ℕ → Bool
  pub register_dev : ℤ

-- The last interrupt endpoint of each direction, if there is one.
unfoldable pub scan :
    List Endpoint → Option Endpoint → Option Endpoint → Option Endpoint × Option Endpoint
scan [] output input = (output, input)
scan (e ∷ es) output input =
    scan es (if not e.is_in then (if e.is_interrupt then some e else output) else output)
      (if e.is_in then (if e.is_interrupt then some e else input) else input)

abbrev pub is_missing : Option Endpoint → Bool
is_missing none = true
is_missing (some _) = false

abbrev max_packet_size : Option Endpoint → ℕ
max_packet_size none = 0
max_packet_size (some e) = e.max_packet_size

-- What the last label of the unwinding leaves.
abbrev pub forget : Usb → Usb
forget s = record s {
  present = false;
  output = record s.output { endpoint = none; urb = false; buffer = none };
  input = record s.input { endpoint = none; urb = false; buffer = none };
}

abbrev pub bind : Option Endpoint → Option Endpoint → Usb → Usb
bind output input s = record s {
  present = true;
  output = record s.output {
    endpoint = output;
    urb = true;
    buffer = some (replicate out_buffer_size 0);
    busy = false;
  };
  input = record s.input {
    endpoint = input;
    urb = true;
    buffer = some (replicate in_buffer_size 0);
    busy = false;
  };
}

-- The driver is bound to one device at a time; its pointers are NULL before. The bytes of a new
-- buffer stand for whatever they are.
unfoldable pub example_probe : Env → Usb → Held → (ℤ × Held) × Usb
example_probe env s h =
    let found = scan env.endpoints s.output.endpoint s.input.endpoint in
    let h₁ = acquire usb_ref h in
    let h₂ = acquire (urb 0) h₁ in
    let h₃ = acquire (urb 1) h₂ in
    let h₄ = acquire (memory 0) h₃ in
    let h₅ = acquire (memory 1) h₄ in
    let undo₂ = λ (k : Held). release (urb 0) k in
    let undo₃ = λ (k : Held). undo₂ (release (urb 1) k) in
    let undo₄ = λ (k : Held). undo₃ (release (memory 0) k) in
    let undo₅ = λ (k : Held). undo₄ (release (memory 1) k) in
    if is_missing found.0
    then ((neg enodev, h₁), forget s)
    else (if is_missing found.1
        then ((neg enodev, h₁), forget s)
        else (if ltb (max_packet_size found.0) out_buffer_size
            then ((neg einval, h₁), forget s)
            else (if ltb (max_packet_size found.1) in_buffer_size
                then ((neg einval, h₁), forget s)
                else (if not (env.alloc_urb 0)
                    then ((neg enomem, h₁), forget s)
                    else (if not (env.alloc_urb 1)
                        then ((neg enomem, undo₂ h₂), forget s)
                        else (if not (env.kmalloc 0)
                            then ((neg enomem, undo₃ h₃), forget s)
                            else (if not (env.kmalloc 1)
                                then ((neg enomem, undo₄ h₄), forget s)
                                else (if not (is_zero env.register_dev)
                                    then ((env.register_dev, undo₅ h₅), forget s)
                                    else (
                                      (pos 0, acquire usb_minor h₅),
                                      bind found.0 found.1 s,
                                    )))))))))

unfoldable pub example_disconnect : Usb → Held → Held × Usb
example_disconnect s h =
    let h₁ = release (urb 1) (release (memory 1) (release usb_minor h)) in
    (release (urb 0) (release (memory 0) h₁), forget s)

-- A probe that is refused leaves no device bound, and one that succeeds binds a device with both
-- URBs and both buffers, an endpoint for each direction and both directions idle. Either way, once
-- the device is disconnected, everything is given back but the reference to the device.
pub probe-disconnect :
    (env : Env) (s : Usb) (h : Held)
    → let ((err, held), s') = example_probe env s h in
      (s'.present ≡ is_zero err)
      × (s'.output.urb ≡ is_zero err)
      × (s'.input.urb ≡ is_zero err)
      × ((if is_zero err then s'.output.busy else false) ≡ false)
      × ((if is_zero err then s'.input.busy else false) ≡ false)
      × ((if is_zero err then is_missing s'.output.endpoint else false) ≡ false)
      × ((if is_zero err then is_missing s'.input.endpoint else false) ≡ false)
      × ((if is_zero err then (example_disconnect s' held).0 else held) ≡ acquire usb_ref h)
unfolding example_probe example_disconnect
probe-disconnect env s h = ground arith
