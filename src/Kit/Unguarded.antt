-- ===== src/Kit/Unguarded.antt =====
-- What the write of exemples/07-utilisation-bus-usb/example-VII-03.c does without a test.
use ild.Base.{ℕ, ◌%◌, ◌≡◌, ◌∙◌, ap, ℤ, is_zero, true, false, List, Option, some, map}
use ild.Kernel.Held.{Held}
use ild.Usb.Idle.{else_branch}
use ild.Kit.Write.{numbers, parse_values}
use ild.Kit.Plain
use ild.Kit.Plain.{Plain, returned, null_pointer}
use ild.Kit.Probe.{plain_disconnect}

-- In the driver of example-VII-03.c, a write of eight numbers puts them in the buffer of the
-- transfer under way even when the kernel refuses to submit it, and once the device is disconnected
-- it writes through a null pointer.
pub plain_write-unguarded :
    (sscanf : List ℕ → Option (List ℕ)) (submit : ℤ) (data_ values old : List ℕ) (length left : ℕ)
    (s : Plain) (h : Held)
    → parse_values sscanf true data_ length left ≡ numbers values
    → s.buffer ≡ some old
    → is_zero submit ≡ false
    → (Plain.example_write sscanf true submit data_ length left s
        ≡ returned submit (record s { buffer = some (map (λ v. v % 256) values) }))
      × (let gone = (plain_disconnect s h).1 in
          Plain.example_write sscanf true submit data_ length left gone ≡ null_pointer gone)
unfolding Plain.example_write Plain.write_parsed Plain.store_packet plain_disconnect
plain_write-unguarded sscanf submit data_ values old length left s h n b e = (
  ap (Plain.write_parsed submit length s) n
      ∙ ap (Plain.store_packet submit values length s) b
      ∙ else_branch (is_zero submit) _ _ e,
  ap (Plain.write_parsed submit length (plain_disconnect s h).1) n,
)
