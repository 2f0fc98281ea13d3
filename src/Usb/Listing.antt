-- ===== src/Usb/Listing.antt =====
-- exemples/07-utilisation-bus-usb/example-VII-02.c, which lists the endpoints of an interface, and
-- the probe of example-VII-05.c, which looks for two of them.
use ild.Base.{
  sym, ℕ, ◌≡◌, refl, ap, ◌∙◌, ◌==◌, ◌&&◌, ◌||◌, not, bit_and, if◌then◌else◌, neg, is_zero, Bool,
  true, false, List, [], ◌∷◌, map, Option, none, some, arith,
}
use ild.Kernel.Errno.{enodev}
use ild.Kernel.Held.{Held, acquire, usb_ref}
use ild.Usb.{Usb, Endpoint}
use ild.Usb.Probe.{Env, scan, is_missing, example_probe, example_disconnect, probe-disconnect}

-- What the two probes read of a descriptor: bEndpointAddress, bmAttributes and wMaxPacketSize.
pub record Descriptor : Type 0 where
  pub endpoint_address : ℕ
  pub attributes : ℕ
  pub max_packet_size : ℕ

pub data Transfer : Type 0 where
  bulk : Transfer
  control : Transfer
  interrupt : Transfer
  isochronous : Transfer

-- The direction and the kind of transfer that a line names.
pub record Line : Type 0 where
  pub is_in : Bool
  pub transfer : Transfer

-- USB_DIR_IN is 0x80.
abbrev pub has_dir_in : Descriptor → Bool
has_dir_in d = not (bit_and d.endpoint_address 0x80 == 0)

-- USB_ENDPOINT_XFERTYPE_MASK is 3, and the kinds are control 0, isochronous 1, bulk 2 and interrupt
-- 3.
abbrev pub transfer_type : Descriptor → ℕ
transfer_type d = bit_and d.attributes 3

-- The line of an endpoint; a type that is none of the four has none.
unfoldable pub endpoint_line : Descriptor → Option Line
endpoint_line d =
    let line : Transfer → Option Line = λ t. some (record { is_in = has_dir_in d; transfer = t }) in
    if transfer_type d == 2
    then line bulk
    else (if transfer_type d == 0
        then line control
        else (if transfer_type d == 3
            then line interrupt
            else (if transfer_type d == 1 then line isochronous else none)))

abbrev pub add_line : Option Line → List Line → List Line
add_line none ls = ls
add_line (some l) ls = l ∷ ls

unfoldable pub listing : List Descriptor → List Line
listing [] = []
listing (d ∷ ds) = add_line (endpoint_line d) (listing ds)

-- An endpoint as the probe of example-VII-05.c sees it.
abbrev pub endpoint_of : Descriptor → Endpoint
endpoint_of d = record {
  is_in = has_dir_in d;
  is_interrupt = transfer_type d == 3;
  max_packet_size = d.max_packet_size;
}

abbrev is_interrupt : Transfer → Bool
is_interrupt bulk = false
is_interrupt control = false
is_interrupt interrupt = true
is_interrupt isochronous = false

abbrev is_interrupt_line : Bool → Line → Bool
is_interrupt_line is_in l = is_interrupt l.transfer && (if is_in then l.is_in else not l.is_in)

-- Whether a line names an interrupt endpoint of the direction.
abbrev pub lists_interrupt : Bool → List Line → Bool
lists_interrupt is_in [] = false
lists_interrupt is_in (l ∷ ls) = is_interrupt_line is_in l || lists_interrupt is_in ls

lists_interrupt-line :
    (is_in : Bool) (d : Descriptor) (ls : List Line)
    → lists_interrupt is_in (add_line (endpoint_line d) ls) ≡ (
        transfer_type d == 3 && (if is_in then has_dir_in d else not (has_dir_in d))
        || lists_interrupt is_in ls)
unfolding endpoint_line
lists_interrupt-line is_in d ls = ground arith

-- What one turn of the scan does to one of the two pointers.
is_missing-turn :
    (chosen fits others : Bool) (e : Endpoint) (x : Option Endpoint)
    → (is_missing (if chosen then (if fits then some e else x) else x) && not others)
      ≡ (is_missing x && not (fits && chosen || others))
is_missing-turn chosen fits others e x = ground arith

scan-listing :
    (ds : List Descriptor) (output input : Option Endpoint)
    → (is_missing (scan (map endpoint_of ds) output input).0
        ≡ (is_missing output && not (lists_interrupt false (listing ds))))
      × (is_missing (scan (map endpoint_of ds) output input).1
          ≡ (is_missing input && not (lists_interrupt true (listing ds))))
unfolding scan listing
scan-listing [] output input = (ground arith, ground arith)
scan-listing (d ∷ ds) output input =
    let e = endpoint_of d in
    let o = if not e.is_in then (if e.is_interrupt then some e else output) else output in
    let i = if e.is_in then (if e.is_interrupt then some e else input) else input in
    let (p, q) = scan-listing ds o i in
    (
      p
          ∙ is_missing-turn (not (has_dir_in d)) (transfer_type d == 3) _ e output
          ∙ ap (λ b. is_missing output && not b) (sym (lists_interrupt-line false d (listing ds))),
      q
          ∙ is_missing-turn (has_dir_in d) (transfer_type d == 3) _ e input
          ∙ ap (λ b. is_missing input && not b) (sym (lists_interrupt-line true d (listing ds))),
    )

-- Whether the listing names an interrupt endpoint of each direction.
abbrev pub lists_both : List Line → Bool
lists_both ls = lists_interrupt false ls && lists_interrupt true ls

abbrev found_both : Env → Usb → Bool
found_both env s =
    let found = scan env.endpoints s.output.endpoint s.input.endpoint in
    not (is_missing found.0) && not (is_missing found.1)

probe-found :
    (env : Env) (s : Usb) (h : Held)
    → let err = (example_probe env s h).0.0 in
      ((if found_both env s then neg enodev else err) ≡ neg enodev)
      × ((if is_zero err then found_both env s else true) ≡ true)
unfolding example_probe
probe-found env s h = ground arith

found_both-listing :
    (env : Env) (ds : List Descriptor) (s : Usb)
    → s.output.endpoint ≡ none
    → s.input.endpoint ≡ none
    → env.endpoints ≡ map endpoint_of ds
    → found_both env s ≡ lists_both (listing ds)
found_both-listing env ds s o i e =
    let (p, q) = scan-listing ds none none in
    let a : found_both env s ≡ (
        not (is_missing (scan (map endpoint_of ds) none none).0)
        && not (is_missing (scan (map endpoint_of ds) none none).1)) =
      rw (e, o, i) refl in
    a ∙ ground arith

-- The probe of example-VII-05.c, while its two endpoint pointers are NULL, returns -ENODEV for an
-- interface for which example-VII-02.c does not list an interrupt endpoint of each direction.
-- Whatever the probe returns, a device is there, with both URBs, exactly if it returns 0, which it
-- does only for an interface for which both are listed; and once the device is disconnected, or
-- refused, everything is given back but the reference to the device.
pub probe-listed :
    (env : Env) (ds : List Descriptor) (s : Usb) (h : Held)
    → s.output.endpoint ≡ none
    → s.input.endpoint ≡ none
    → env.endpoints ≡ map endpoint_of ds
    → let ((err, held), s') = example_probe env s h in
      ((if lists_both (listing ds) then neg enodev else err) ≡ neg enodev)
      × (s'.present ≡ is_zero err)
      × ((if is_zero err then lists_both (listing ds) else true) ≡ true)
      × (s'.output.urb ≡ is_zero err)
      × (s'.input.urb ≡ is_zero err)
      × ((if is_zero err then (example_disconnect s' held).0 else held) ≡ acquire usb_ref h)
probe-listed env ds s h o i e =
    let err = (example_probe env s h).0.0 in
    let both = found_both-listing env ds s o i e in
    let f = probe-found env s h in
    let g = probe-disconnect env s h in
    (
      ap (λ b. if b then neg enodev else err) (sym both) ∙ f.0,
      g.0,
      ap (λ b. if is_zero err then b else true) (sym both) ∙ f.1,
      g.1,
      g.2,
      g.7,
    )
