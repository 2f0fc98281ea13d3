-- ===== src/Log/Tests.antt =====
-- The log at small inputs.
use ild.Base.{ℕ, ◌-◌, ◌≡◌, refl, true, false, ℤ, pos, neg, List, [], ◌∷◌, take, replicate, arith}
use ild.Kernel.Errno.{ebusy, einval}
use ild.Kernel.Held.{Held}
use ild.Kernel.Format.{show_d, show_ld, decimal}
use ild.Text.Cat.{cat}
use ild.Log.{log_init, log_exit, Log, event_text, log_read}
use ild.Log.Table.{Holds}
use ild.Log.Drain.{texts, Drained}
use ild.Log.Order.{Call, write_all, requested, write_all-Drained}

abbrev blank : Log
blank = record { events = replicate 64 (record { data_ = 0; time = 0 }); nb_events = 0 }

blank-Holds : Holds [] blank
blank-Holds = record { spare = blank.events; events = refl; count = refl; size = refl }

-- "[5] 7\n"
text_of_7 : event_text (record { data_ = 7; time = 5 }) ≡ 91 ∷ 53 ∷ 93 ∷ 32 ∷ 55 ∷ 10 ∷ []
unfolding event_text show_d show_ld decimal
text_of_7 = refl

-- A reader of texts of one digit.
abbrev sevens : List ℕ → ℕ → ℤ × ℕ
sevens (c ∷ []) nb = (pos 0, c - 48)
sevens _ nb = (neg einval, 0)

abbrev calls : List Call
calls =
    record { u_buffer = 55 ∷ []; nb = 1; time = 5 }
    ∷ record { u_buffer = []; nb = 0; time = 6 }
    ∷ record { u_buffer = 55 ∷ []; nb = 1; time = 8 }
    ∷ []

write_all-Drained_example :
    Drained
      (cat log_read 4096 3 (write_all sevens calls blank) 0 [])
      (texts (take 64 (requested sevens calls)))
write_all-Drained_example = write_all-Drained sevens calls 3 blank-Holds (omega arith)

abbrev nothing : Held
nothing = record { resources = []; faults = 0 }

loads_and_unloads :
    (log_exit (log_init true nothing).1 ≡ nothing) × (log_init false nothing ≡ (neg ebusy, nothing))
unfolding log_init log_exit
loads_and_unloads = (refl, refl)
