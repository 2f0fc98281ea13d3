-- ===== src/Usb/Sessions.antt =====
-- The driver of example-VII-05.c from its loading to its removal, with devices plugged and
-- unplugged.
use ild.Base.{
  ℕ, zero, suc, ◌≡◌, refl, ap, sym, ◌∙◌, pos, Bool, true, false, if◌then◌else◌, List, [], ◌∷◌,
  arith,
}
use ild.Kernel.Held.{leaked, Held, acquire, release, mem, usb_ref, usb_driver}
use ild.Kernel.Module.{Kernel}
use ild.Usb.{Usb}
use ild.Usb.Probe.{Env, example_probe, example_disconnect, probe-disconnect}
use ild.Usb.Load.{usb_init, usb_exit}

-- The driver's state, what is held, and the probes that were made.
pub record Session : Type 0 where
  pub usb : Usb
  pub held : Held
  pub probes : ℕ

-- A device is plugged, with what the kernel's calls then return, or unplugged; or processes call
-- the methods, which take and give back nothing, and leave the given state but for the presence of
-- a device.
pub data Event : Type 0 where
  plugged : Env → Event
  unplugged : Event
  used : Usb → Event

-- `example_probe`, whether a device is there already or not.
unfoldable pub plug : Env → Session → Session
plug env t =
    let ((err, held), usb) = example_probe env t.usb t.held in
    record { usb = usb; held = held; probes = suc t.probes }

unfoldable pub unplug : Bool → Session → Session
unplug true t =
    let (held, usb) = example_disconnect t.usb t.held in record t { usb = usb; held = held }
unplug false t = t

unfoldable pub use_device : Usb → Session → Session
use_device u t = record t { usb = record u { present = t.usb.present } }

abbrev pub happen : Event → Session → Session
happen (plugged env) t = plug env t
happen unplugged t = unplug t.usb.present t
happen (used u) t = use_device u t

abbrev pub happen_all : List Event → Session → Session
happen_all [] t = t
happen_all (e ∷ es) t = happen_all es (happen e t)

-- No device is plugged while another is there.
abbrev pub OneAtATime : List Event → Session → Type 0
OneAtATime [] t = Unit {0}
OneAtATime (plugged env ∷ es) t = (t.usb.present ≡ false) × OneAtATime es (happen (plugged env) t)
OneAtATime (unplugged ∷ es) t = OneAtATime es (happen unplugged t)
OneAtATime (used u ∷ es) t = OneAtATime es (happen (used u) t)

-- The removal of the module: the kernel disconnects a device that is there.
unfoldable pub remove : Session → Held
remove t = usb_exit (unplug t.usb.present t).held

-- What is held, once a device that is there is disconnected.
abbrev left : Bool → Session → Held
left present t = if present then (example_disconnect t.usb t.held).0 else t.held

-- It is nothing but the references.
abbrev IsBalanced : Held → Session → Type 0
IsBalanced h t = left t.usb.present t ≡ leaked usb_ref t.probes h

disconnect-held : (s u : Usb) (h : Held) → (example_disconnect s h).0 ≡ (example_disconnect u h).0
unfolding example_disconnect
disconnect-held s u h = refl

disconnect-present : (s : Usb) (h : Held) → (example_disconnect s h).1.present ≡ false
unfolding example_disconnect
disconnect-present s h = refl

plug-left :
    (env : Env) (t : Session) → left (plug env t).usb.present (plug env t) ≡ acquire usb_ref t.held
unfolding plug
plug-left env t =
    let p = probe-disconnect env t.usb t.held in ap (λ b. left b (plug env t)) p.0 ∙ p.7

module _ (h : Held) where
  plug-IsBalanced :
      (env : Env) (t : Session) → t.usb.present ≡ false → IsBalanced h t → IsBalanced h (plug env t)
  unfolding plug
  plug-IsBalanced env t e bal =
      plug-left env t ∙ ap (acquire usb_ref) (ap (λ b. left b t) (sym e) ∙ bal)

  unplug-left :
      (b : Bool) (t : Session)
      → t.usb.present ≡ b
      → IsBalanced h t
      → ((unplug b t).held ≡ leaked usb_ref t.probes h) × ((unplug b t).usb.present ≡ false)
  unfolding unplug
  unplug-left true t e bal = (ap (λ b. left b t) (sym e) ∙ bal, disconnect-present t.usb t.held)
  unplug-left false t e bal = (ap (λ b. left b t) (sym e) ∙ bal, e)

  unplug-probes : (b : Bool) (t : Session) → (unplug b t).probes ≡ t.probes
  unfolding unplug
  unplug-probes true t = refl
  unplug-probes false t = refl

  unplug-IsBalanced :
      (b : Bool) (t : Session) → t.usb.present ≡ b → IsBalanced h t → IsBalanced h (unplug b t)
  unplug-IsBalanced b t e bal =
      let (p, q) = unplug-left b t e bal in
      ap (λ c. left c (unplug b t)) q ∙ p ∙ ap (λ n. leaked usb_ref n h) (sym (unplug-probes b t))

  use_device-IsBalanced : (u : Usb) (t : Session) → IsBalanced h t → IsBalanced h (use_device u t)
  unfolding use_device
  use_device-IsBalanced u t bal =
      ap (λ d. if t.usb.present then d else t.held)
        (disconnect-held (record u { present = t.usb.present }) t.usb t.held)
      ∙ bal

  happen_all-IsBalanced :
      (es : List Event) (t : Session)
      → OneAtATime es t
      → IsBalanced h t
      → IsBalanced h (happen_all es t)
  happen_all-IsBalanced [] t one b = b
  happen_all-IsBalanced (plugged env ∷ es) t one b =
      happen_all-IsBalanced es (plug env t) one.1 (plug-IsBalanced env t one.0 b)
  happen_all-IsBalanced (unplugged ∷ es) t one b =
      happen_all-IsBalanced es (unplug t.usb.present t) one
        (unplug-IsBalanced t.usb.present t refl b)
  happen_all-IsBalanced (used u ∷ es) t one b =
      happen_all-IsBalanced es (use_device u t) one (use_device-IsBalanced u t b)

leaked-resources :
    (n : ℕ) (h : Held) → mem usb_driver (leaked usb_ref n (acquire usb_driver h)).resources ≡ true
leaked-resources zero h = refl
leaked-resources (suc n) h = leaked-resources n h

release-acquire :
    (h : Held)
    → mem usb_driver h.resources ≡ true
    → release usb_driver (acquire usb_ref h) ≡ acquire usb_ref (release usb_driver h)
release-acquire h there = ground arith

release-leaked :
    (n : ℕ) (h : Held)
    → release usb_driver (leaked usb_ref n (acquire usb_driver h)) ≡ leaked usb_ref n h
release-leaked zero h = refl
release-leaked (suc n) h =
    release-acquire (leaked usb_ref n (acquire usb_driver h)) (leaked-resources n h)
    ∙ ap (acquire usb_ref) (release-leaked n h)

-- The driver after it was loaded with the given statics.
abbrev pub loaded : Usb → Held → Session
loaded s h = record { usb = s; held = acquire usb_driver h; probes = 0 }

-- From the loading of example-VII-05.c, whatever devices are plugged and unplugged, none while
-- another is there, whether the probes succeed or are refused half-way, and whatever the methods do
-- meanwhile, the removal of the module gives back the driver, the minor, the URBs and the buffers,
-- releases nothing that is not held, and leaves exactly one reference to a device for each probe.
pub remove-loaded :
    (k : Kernel) (es : List Event) (s : Usb) (h : Held)
    → k.usb_register ≡ pos 0
    → s.present ≡ false
    → OneAtATime es (loaded s h)
    → let t = happen_all es (loaded s h) in
      (usb_init k h ≡ (pos 0, acquire usb_driver h)) × (remove t ≡ leaked usb_ref t.probes h)
unfolding remove usb_init usb_exit
remove-loaded k es s h ok absent one =
    let t = happen_all es (loaded s h) in
    let start : IsBalanced (acquire usb_driver h) (loaded s h) = rw absent refl in
    let b = happen_all-IsBalanced (acquire usb_driver h) es (loaded s h) one start in
    let (p, q) = unplug-left (acquire usb_driver h) t.usb.present t refl b in
    (rw ok refl, ap (release usb_driver) p ∙ release-leaked t.probes h)
