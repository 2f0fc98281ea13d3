-- ===== src/Gpio/Deferred.antt =====
-- exemples/05-acces-au-materiel/example-V-04.c, example-V-05.c and example-V-06.c: the toggle runs
-- in a tasklet, a work item or an interrupt thread that the handler schedules. The kernel merges
-- requests made before the deferred half has run. Their entry and exit points take and give back
-- the resources of example-V-03.c; `tasklet_kill` and `flush_work` hold none.
use ild.Base.{
  ℕ, zero, suc, ◌+◌, ◌-◌, ◌%◌, ◌≤◌, ◌≡◌, Bool, true, false, List, [], ◌∷◌, if◌then◌else◌, ℤ, arith,
  refl, ap, ◌∙◌,
}
use ild.Kernel.Held.{Held}
use ild.Gpio.{Env}
use ild.Gpio.Toggle
use ild.Gpio.Toggle.{Led, start, example_handler, interrupts, level-interrupts}

pub record Deferred : Type 0 where
  pub led : Led
  pub scheduled : Bool

unfoldable pub tasklet_top_half : Deferred → Deferred
tasklet_top_half s = record s { scheduled = true }

unfoldable pub tasklet_bottom_half : Led → Led
tasklet_bottom_half s = record { level = s.value; value = 1 - s.value }

unfoldable pub work_top_half : Deferred → Deferred
work_top_half s = record s { scheduled = true }

unfoldable pub work_bottom_half : Led → Led
work_bottom_half s = record { level = s.value; value = 1 - s.value }

-- `IRQ_WAKE_THREAD`
unfoldable pub thread_top_half : Deferred → Deferred
thread_top_half s = record s { scheduled = true }

unfoldable pub thread_bottom_half : Led → Led
thread_bottom_half s = record { level = s.value; value = 1 - s.value }

unfoldable pub tasklet_init : Env → Held → ℤ × Held
tasklet_init = Toggle.example_init

unfoldable pub tasklet_exit : Held → Held
tasklet_exit = Toggle.example_exit

unfoldable pub work_init : Env → Held → ℤ × Held
work_init = Toggle.example_init

unfoldable pub work_exit : Held → Held
work_exit = Toggle.example_exit

unfoldable pub thread_init : Env → Held → ℤ × Held
thread_init = Toggle.example_init

unfoldable pub thread_exit : Held → Held
thread_exit = Toggle.example_exit

pub data Way : Type 0 where
  tasklet work thread : Way

-- An interrupt, or the kernel running the deferred half if it is scheduled.
pub data Event : Type 0 where
  edge dispatch : Event

abbrev top_half : Way → Deferred → Deferred
top_half tasklet = tasklet_top_half
top_half work = work_top_half
top_half thread = thread_top_half

abbrev bottom_half : Way → Led → Led
bottom_half tasklet = tasklet_bottom_half
bottom_half work = work_bottom_half
bottom_half thread = thread_bottom_half

abbrev pub step : Way → Event → Deferred → Deferred
step w edge s = top_half w s
step w dispatch s =
    if s.scheduled then record { led = bottom_half w s.led; scheduled = false } else s

unfoldable pub run : Way → List Event → Deferred → Deferred
run w [] s = s
run w (e ∷ es) s = run w es (step w e s)

-- How often the deferred half runs: once for each group of edges that a dispatch closes.
abbrev pub groups : Bool → List Event → ℕ
groups waiting [] = 0
groups waiting (edge ∷ es) = groups true es
groups true (dispatch ∷ es) = suc (groups false es)
groups false (dispatch ∷ es) = groups false es

abbrev pub edges : List Event → ℕ
edges [] = 0
edges (edge ∷ es) = suc (edges es)
edges (dispatch ∷ es) = edges es

interrupts-handler : (n : ℕ) (s : Led) → interrupts n (example_handler s) ≡ interrupts (suc n) s
unfolding interrupts
interrupts-handler zero s = refl
interrupts-handler (suc n) s = ap example_handler (interrupts-handler n s)

bottom_half-handler : (w : Way) (s : Led) → bottom_half w s ≡ example_handler s
unfolding tasklet_bottom_half work_bottom_half thread_bottom_half example_handler
bottom_half-handler tasklet s = refl
bottom_half-handler work s = refl
bottom_half-handler thread s = refl

top_half_lem : (w : Way) (s : Deferred) → top_half w s ≡ record s { scheduled = true }
unfolding tasklet_top_half work_top_half thread_top_half
top_half_lem tasklet s = refl
top_half_lem work s = refl
top_half_lem thread s = refl

run-groups :
    (w : Way) (es : List Event) (led : Led) (b : Bool)
    → (run w es (record { led = led; scheduled = b })).led ≡ interrupts (groups b es) led
unfolding run interrupts
run-groups w [] led b = refl
run-groups w (edge ∷ es) led b =
    ap (λ (s : Deferred). (run w es s).led) (top_half_lem w (record { led = led; scheduled = b }))
    ∙ run-groups w es led true
run-groups w (dispatch ∷ es) led true =
    rw (run-groups w es (bottom_half w led) false, bottom_half-handler w led)
      (interrupts-handler (groups false es) led)
run-groups w (dispatch ∷ es) led false = run-groups w es led false

groups-le : (b : Bool) (es : List Event) → groups b es ≤ (if b then 1 else 0) + edges es
groups-le b [] = omega arith
groups-le b (edge ∷ es) = omega (arith, groups-le true es)
groups-le true (dispatch ∷ es) = omega (arith, groups-le false es)
groups-le false (dispatch ∷ es) = omega (arith, groups-le false es)

-- A tasklet, a work item or a thread leaves the output line as the direct handler does after as
-- many interrupts as there are groups of edges closed by a dispatch, which are at most the edges:
-- the line is high exactly if their number is odd.
pub run-interrupts :
    (w : Way) (es : List Event)
    → let s = run w es (record { led = start; scheduled = false }) in
      (s.led ≡ interrupts (groups false es) start)
      × (groups false es ≤ edges es)
      × (s.led.level ≡ groups false es % 2)
run-interrupts w es = (
  run-groups w es start false,
  omega (arith, groups-le false es),
  ap (λ (l : Led). l.level) (run-groups w es start false) ∙ level-interrupts (groups false es),
)
