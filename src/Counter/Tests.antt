-- ===== src/Counter/Tests.antt =====
-- The counters at small inputs.
use ild.Base.{
  ◌==◌, if◌then◌else◌, ◌∷◌, [], List, ℕ, ◌≡◌, refl, true, pos, neg, some, none, Option, arith, ◌-◌,
  replicate,
}
use ild.Kernel.Errno.{einval}
use ild.Kernel.Copy.{reply, out_of_bounds}
use ild.Kernel.Held.{Held, acquire, memory}
use ild.Kernel.Format.{show_d, decimal}
use ild.Text.{read_text, got}
use ild.Text.Pieces.{read_text_cases}
use ild.Counter.{counter_text, Command}
use ild.Counter.Single.{
  Counter, plain_read, writable_read, stepped_read, writable_write, stepped_write,
}
use ild.Counter.Several
use ild.Counter.Several.{Counters}
use ild.Counter.Program.{set_step_main, readings, counters-readings}
use ild.Counter.Writes.{Stores, writes-Stores}

abbrev nothing : Held
nothing = record { resources = []; faults = 0 }

-- A reader that knows the text "5" alone.
abbrev fives : List ℕ → Option ℕ
fives (x ∷ []) = some (x - 48)
fives _ = none

abbrev by_three : Counter
by_three = record { counter = 7; step = 3 }

abbrev eight : Counters
eight = record { counter = 1 ∷ 2 ∷ 3 ∷ 4 ∷ 5 ∷ 6 ∷ 7 ∷ 8 ∷ []; step = replicate 8 1 }

abbrev set_step : Command
set_step = record { ioc_type = b'c'; ioc_nr = 1 }

text_of_7 : counter_text 7 ≡ 67 ∷ 111 ∷ 117 ∷ 110 ∷ 116 ∷ 101 ∷ 114 ∷ 32 ∷ 61 ∷ 32 ∷ 55 ∷ 10 ∷ []
unfolding counter_text show_d decimal
text_of_7 = refl

writes_five : (writable_write fives true (53 ∷ []) 1 0 7 nothing).state ≡ 5
unfolding writable_write
writes_five = refl

refuses_text :
    (Several.counter_write fives true (53 ∷ 53 ∷ []) 2 0 1 eight nothing).ret ≡ neg einval
unfolding Several.counter_write
refuses_text = refl

writes-Stores_example :
    let w = writable_write fives true (53 ∷ []) 1 1 7 nothing in
    let v = stepped_write fives true (53 ∷ []) 1 1 by_three nothing in
    Stores fives true (53 ∷ []) 1 1 7 w.ret w.state
    × (w.held ≡ nothing)
    × Stores fives true (53 ∷ []) 1 1 7 v.ret v.state.counter
    × (v.state.step ≡ 3)
    × (v.held ≡ acquire (memory 0) nothing)
writes-Stores_example = writes-Stores fives true (53 ∷ []) 1 1 nothing 7 by_three

-- With every device registered nothing is left; with one refused, its removal is a fault.
registrations :
    (Several.counter_exit (Several.counter_init (λ n. pos 0) eight nothing).0.1 ≡ nothing)
    × ((Several.counter_init (λ n. pos 0) eight nothing).1.step ≡ replicate 8 1)
    × (Several.counter_exit
          (Several.counter_init (λ n. if n == 3 then neg 16 else pos 0) eight nothing).0.1
        ≡ record nothing { faults = 1 })
unfolding Several.counter_init Several.counter_exit
registrations = (refl, refl, refl)

read_text_cases_example :
    (read_text (65 ∷ 66 ∷ 67 ∷ []) 2 2 0 ≡ got (reply (pos 1) (67 ∷ [])) 3)
    × (read_text (65 ∷ 66 ∷ 67 ∷ []) 2 4294967297 0 ≡ got out_of_bounds 4294967297)
read_text_cases_example =
    read_text_cases (65 ∷ 66 ∷ 67 ∷ []) 2 2 1 0 (omega arith) (omega arith) (omega arith)
      (omega arith)

counters-readings_example :
    (readings plain_read 5 2 4294967295 ≡ some (counter_text 4294967295 ∷ counter_text 0 ∷ [], 1))
    × (readings writable_read 5 2 4294967295
        ≡ some (counter_text 4294967295 ∷ counter_text 0 ∷ [], 1))
    × ((set_step_main 3 true (some 4) 0 by_three).0 ≡ true)
    × (readings stepped_read 5 2 (set_step_main 3 true (some 4) 0 by_three).1
        ≡ some (counter_text 7 ∷ counter_text 11 ∷ [], record { counter = 15; step = 4 }))
    × (readings (Several.counter_read 2) 5 2 eight
        ≡ some (
          counter_text 3 ∷ counter_text 4 ∷ [],
          record eight { counter = 1 ∷ 2 ∷ 5 ∷ 4 ∷ 5 ∷ 6 ∷ 7 ∷ 8 ∷ [] },
        ))
counters-readings_example =
    counters-readings 3 4 5 2 4294967295 2 by_three eight (omega arith) (omega arith) (omega arith)
      (omega arith) (omega arith) (omega arith)
