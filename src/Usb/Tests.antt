-- ===== src/Usb/Tests.antt =====
-- The USB driver at small inputs.
use ild.Base.{
  ℕ, ◌+◌, ◌%◌, ◌≡◌, refl, pos, neg, is_zero, true, false, List, [], ◌∷◌, ◌++◌, Option, some,
  replicate, length, map, if◌then◌else◌, arith,
}
use ild.Kernel.Errno.{enomem, enodev}
use ild.Kernel.Format.{decimal}
use ild.Kernel.Copy.{reply, out_of_bounds}
use ild.Kernel.Held.{Held, acquire, usb_ref, usb_driver, leaked}
use ild.Usb.{
  Usb, Channel, Endpoint, timeout, completed, signal, returned, example_open, example_release,
}
use ild.Usb.Write
use ild.Usb.Write.{example_write}
use ild.Usb.Read
use ild.Usb.Read.{received, example_read, packet_text, copy_text}
use ild.Usb.Probe.{scan, forget, Env, example_probe, example_disconnect}
use ild.Usb.Idle.{IsIdle, LeavesWrite, LeavesRead}
use ild.Usb.Ready.{usb_calls-IsIdle}
use ild.Usb.Transfers.{write-Sends}
use ild.Usb.Packet.{fetched, read-read}
use ild.Kernel.Module.{Kernel}
use ild.Usb.Load.{usb_init}
use ild.Usb.Sessions as Sessions
use ild.Usb.Sessions.{Event, OneAtATime, happen_all, remove, remove-loaded}
use ild.Usb.Listing
use ild.Usb.Listing.{Descriptor, endpoint_of, endpoint_line, listing, lists_both, probe-listed}

abbrev input_endpoint : Endpoint
input_endpoint = record { is_in = true; is_interrupt = true; max_packet_size = 8 }

abbrev output_endpoint : Endpoint
output_endpoint = record { is_in = false; is_interrupt = true; max_packet_size = 8 }

abbrev bound : Option Endpoint → Channel
bound e = record {
  endpoint = e;
  urb = true;
  buffer = some (replicate 8 0);
  busy = false;
  locked = false;
}

abbrev plugged : Usb
plugged = record {
  open_count = 0;
  locked = false;
  present = true;
  output = bound (some output_endpoint);
  input = bound (some input_endpoint);
  k_buffer = replicate 64 0;
  sent = [];
}

plugged-IsIdle : IsIdle plugged
plugged-IsIdle = record {
  unlocked = refl;
  output_unlocked = refl;
  output_idle = refl;
  input_unlocked = refl;
  input_idle = refl;
}

abbrev eight : List ℕ
eight = 1 ∷ 2 ∷ 3 ∷ 4 ∷ 5 ∷ 6 ∷ 7 ∷ 300 ∷ []

abbrev finds_eight : List ℕ → Option (List ℕ)
finds_eight text = some eight

abbrev write_fine : Write.Transfer
write_fine = record { submit = pos 0; status = pos 0 }

abbrev packet : List ℕ
packet = 1 ∷ 0 ∷ 0 ∷ 0 ∷ 0 ∷ 0 ∷ 0 ∷ 12 ∷ []

abbrev read_fine : Read.Transfer
read_fine = record { submit = pos 0; status = pos 0; bytes = packet }

-- A write of no byte stores before the buffer.
empty_write :
    example_write finds_eight true false write_fine [] [] 0 0 plugged
    ≡ returned out_of_bounds plugged
unfolding example_write
empty_write = refl

-- "1 0 0 0 0 0 0 12\n"
text_of_packet : length (packet_text packet) ≡ 17
unfolding packet_text decimal
text_of_packet = refl

usb_calls-IsIdle_example :
    IsIdle (example_open false plugged).1
    × IsIdle (example_release false plugged).1
    × LeavesWrite (
        example_write finds_eight true false write_fine
          (timeout ∷ signal ∷ [])
          (49 ∷ [])
          1
          0
          plugged)
    × LeavesRead (example_read false read_fine (timeout ∷ signal ∷ []) 1 0 0 plugged).0
usb_calls-IsIdle_example =
    usb_calls-IsIdle plugged-IsIdle finds_eight true false write_fine read_fine
      (timeout ∷ signal ∷ []) (49 ∷ []) 1 0 0 (omega arith)

write-Sends_example :
    let sent = map (λ v. v % 256) eight in
    example_write finds_eight true false write_fine
      (replicate 2 timeout ++ completed ∷ [])
      (49 ∷ [])
      1
      0
      plugged
    ≡ returned
        (reply (pos 1) [])
        (record plugged { output = record plugged.output { buffer = some sent }; sent = sent ∷ [] })
write-Sends_example =
    write-Sends finds_eight write_fine 2 [] (49 ∷ []) 1 eight plugged-IsIdle refl refl refl

read-read_example :
    let text = packet_text (received packet plugged.input) in
    let s' = fetched packet plugged in
    (example_read false read_fine (replicate 1 timeout ++ completed ∷ []) 64 0 0 plugged
      ≡ (returned (reply (pos (length text + 1)) (text ++ 0 ∷ [])) s', length text + 1))
    × (example_read false read_fine [] 64 0 (length text + 1) s'
        ≡ (returned (reply (pos 0) []) s', length text + 1))
read-read_example = read-read packet 1 64 [] [] plugged-IsIdle refl refl (omega arith) (omega arith)

abbrev nothing : Held
nothing = record { resources = []; faults = 0 }

abbrev no_minor : Env
no_minor = record {
  endpoints = output_endpoint ∷ input_endpoint ∷ [];
  alloc_urb = λ n. true;
  kmalloc = λ n. true;
  register_dev = neg enomem;
}

abbrev k8055_descriptors : List Descriptor
k8055_descriptors =
    record { endpoint_address = 0x01; attributes = 3; max_packet_size = 8 }
    ∷ record { endpoint_address = 0x81; attributes = 3; max_packet_size = 8 }
    ∷ []

abbrev interface_of : List Descriptor → Env
interface_of ds = record no_minor { endpoints = map endpoint_of ds }

abbrev unplugged : Usb
unplugged = forget plugged

-- "Interrupt out endpoint" and "Interrupt in endpoint".
lists_two :
    listing k8055_descriptors
    ≡ record { is_in = false; transfer = Listing.interrupt }
      ∷ record { is_in = true; transfer = Listing.interrupt }
      ∷ []
unfolding listing endpoint_line
lists_two = refl

probe-listed_example :
    let ((err, held), s') = example_probe (interface_of k8055_descriptors) unplugged nothing in
    ((if lists_both (listing k8055_descriptors) then neg enodev else err) ≡ neg enodev)
    × (s'.present ≡ is_zero err)
    × ((if is_zero err then lists_both (listing k8055_descriptors) else true) ≡ true)
    × (s'.output.urb ≡ is_zero err)
    × (s'.input.urb ≡ is_zero err)
    × ((if is_zero err then (example_disconnect s' held).0 else held) ≡ acquire usb_ref nothing)
probe-listed_example =
    probe-listed (interface_of k8055_descriptors) k8055_descriptors unplugged nothing refl refl refl

abbrev kernel : Kernel
kernel = record { misc_register = pos 0; usb_register = pos 0; proc_create = true; kmalloc = true }

abbrev fine : Env
fine = record no_minor { register_dev = pos 0 }

-- A probe that is refused at its end, one that succeeds and one whose device stays.
abbrev plugs : List Event
plugs =
    Sessions.plugged no_minor
    ∷ Sessions.plugged fine
    ∷ Sessions.used plugged
    ∷ Sessions.unplugged
    ∷ Sessions.plugged fine
    ∷ []

one_at_a_time : OneAtATime plugs (Sessions.loaded unplugged nothing)
unfolding Sessions.plug Sessions.unplug Sessions.use_device example_probe example_disconnect scan
one_at_a_time = (refl, (refl, (refl, tt)))

remove-loaded_example :
    (usb_init kernel nothing ≡ (pos 0, acquire usb_driver nothing))
    × (remove (happen_all plugs (Sessions.loaded unplugged nothing))
        ≡ leaked usb_ref (happen_all plugs (Sessions.loaded unplugged nothing)).probes nothing)
remove-loaded_example = remove-loaded kernel plugs unplugged nothing refl refl one_at_a_time

-- Three references are left.
three_probes : (happen_all plugs (Sessions.loaded unplugged nothing)).probes ≡ 3
unfolding Sessions.plug Sessions.unplug Sessions.use_device example_probe example_disconnect scan
three_probes = refl
