-- ===== src/Usb/Load.antt =====
-- The entry and exit points of exemples/07-utilisation-bus-usb/example-VII-01.c to
-- example-VII-05.c.
use ild.Base.{ℤ}
use ild.Kernel.Held.{Held, usb_driver, release}
use ild.Kernel.Module.{Kernel, register_or_error}

-- example-VII-01.c
unfoldable pub first_init : Kernel → Held → ℤ × Held
first_init k h = register_or_error usb_driver k.usb_register h

unfoldable pub first_exit : Held → Held
first_exit h = release usb_driver h

-- example-VII-02.c
unfoldable pub listing_init : Kernel → Held → ℤ × Held
listing_init k h = register_or_error usb_driver k.usb_register h

unfoldable pub listing_exit : Held → Held
listing_exit h = release usb_driver h

-- example-VII-03.c
unfoldable pub plain_init : Kernel → Held → ℤ × Held
plain_init k h = register_or_error usb_driver k.usb_register h

unfoldable pub plain_exit : Held → Held
plain_exit h = release usb_driver h

-- example-VII-04.c
unfoldable pub kit_init : Kernel → Held → ℤ × Held
kit_init k h = register_or_error usb_driver k.usb_register h

unfoldable pub kit_exit : Held → Held
kit_exit h = release usb_driver h

-- example-VII-05.c
unfoldable pub usb_init : Kernel → Held → ℤ × Held
usb_init k h = register_or_error usb_driver k.usb_register h

unfoldable pub usb_exit : Held → Held
usb_exit h = release usb_driver h
