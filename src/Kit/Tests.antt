-- ===== src/Kit/Tests.antt =====
-- The drivers of the kit that only write, at small inputs.
use ild.Base.{
  ℕ, ◌≡◌, refl, pos, neg, true, false, not, ◌&&◌, List, [], ◌∷◌, Option, some, none, replicate,
}
use ild.Kernel.Errno.{erestartsys}
use ild.Kernel.Held.{Held}
use ild.Usb.{Endpoint, signal, timeout, completed}
use ild.Usb.Write.{Transfer}
use ild.Kit.{Kit, returned, example_open, example_release, example_write_callback, wait_while_busy}
use ild.Kit.Write.{
  parse_values, write_parsed, write_values, turn, submit_packet, finish, example_write,
}
use ild.Kit.Flight.{IsFree, Leaves}
use ild.Kit.Calls.{kit_calls-IsFree, interrupted_write-flying}
use ild.Kit.Plain.{Plain}
use ild.Kit.Probe.{Env}

abbrev eight : List ℕ
eight = 1 ∷ 2 ∷ 3 ∷ 4 ∷ 5 ∷ 6 ∷ 7 ∷ 300 ∷ []

abbrev sscanf : List ℕ → Option (List ℕ)
sscanf text = some eight

abbrev output_endpoint : Endpoint
output_endpoint = record { is_in = false; is_interrupt = true; max_packet_size = 8 }

abbrev plugged : Kit
plugged = record {
  open_count = 1;
  locked = false;
  present = true;
  endpoint = some output_endpoint;
  urb = true;
  buffer = some (replicate 8 0);
  busy = false;
  out_locked = false;
  flying = false;
  sent = [];
}

abbrev in_flight : Kit
in_flight = record plugged { busy = true; flying = true }

abbrev fine : Transfer
fine = record { submit = pos 0; status = pos 0 }

abbrev nothing : Held
nothing = record { resources = []; faults = 0 }

abbrev text : List ℕ
text = b'1' ∷ 10 ∷ []

sends_low_bytes :
    example_write sscanf true false fine (timeout ∷ completed ∷ []) text 2 0 plugged
    ≡ returned (pos 2) (record plugged {
      buffer = some (1 ∷ 2 ∷ 3 ∷ 4 ∷ 5 ∷ 6 ∷ 7 ∷ 44 ∷ []);
      sent = (1 ∷ 2 ∷ 3 ∷ 4 ∷ 5 ∷ 6 ∷ 7 ∷ 44 ∷ []) ∷ [];
    })
unfolding example_write parse_values write_parsed write_values turn submit_packet finish
    wait_while_busy example_write_callback
sends_low_bytes = refl

kit_calls-IsFree_example :
    IsFree (example_open false plugged).1
    × IsFree (example_release false timeout plugged).1
    × Leaves (example_write sscanf true false fine (completed ∷ []) text 2 0 plugged)
kit_calls-IsFree_example =
    kit_calls-IsFree sscanf true false fine (completed ∷ []) timeout text 2 0 plugged
      (refl, refl, refl)

interrupted_write-flying_example :
    (t : Kit) × (example_write sscanf true false fine (signal ∷ []) text 2 0 plugged
      ≡ returned (neg erestartsys) t)
    × (t.flying ≡ true)
    × ((example_release false timeout t).1.flying ≡ true)
    × ((example_release false timeout in_flight).1.flying ≡ (true && not true))
unfolding parse_values
interrupted_write-flying_example =
    interrupted_write-flying sscanf true fine [] timeout text eight 2 0 plugged in_flight refl refl
      refl refl

abbrev no_buffer : Env
no_buffer = record {
  endpoints = output_endpoint ∷ [];
  alloc_urb = true;
  kmalloc = false;
  register_dev = pos 0;
}

abbrev unplugged : Plain
unplugged = record { present = false; endpoint = none; urb = false; buffer = none }

abbrev bound : Plain
bound = record {
  present = true;
  endpoint = some output_endpoint;
  urb = true;
  buffer = some (replicate 8 0);
}
