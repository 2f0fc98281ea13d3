-- ===== src/Ticks/Watch.antt =====
-- exemples/05-acces-au-materiel/test-select.c at devices that do what that of example-select.c
-- does, one for each file: a program that waits for several files at once and reads those that are
-- ready.
use ild.Base.{
  ℕ, ◌+◌, ℤ, pos, negsuc, Bool, true, false, List, [], ◌∷◌, map, Option, none, some, ltb, ◌==◌,
  ◌&&◌, if◌then◌else◌, not,
}
use ild.Kernel.Copy.{reply, out_of_bounds}
use ild.Ticks.{Ticks, Outcome, returned, asleep}
use ild.Ticks.Select.{example_read, example_poll, example_handler}
use ild.Ticks.Queue
use ild.Ticks.Queue.{Queue}
use ild.Ticks.Program.{line}

-- The files that `open` gives for the arguments; the program ends at the first that is refused.
unfoldable pub open_all : List ℤ → Option (List ℕ)
open_all [] = some []
open_all (negsuc n ∷ results) = none
open_all (pos fd ∷ results) = elim (open_all results) [ none ↦ none | some fds ↦ some (fd ∷ fds) ]

-- The highest of the files, from `n` on.
unfoldable pub highest : List ℕ → ℕ → ℕ
highest [] n = n
highest (fd ∷ fds) n = highest fds (if ltb n fd then fd else n)

-- The files and the first argument of `select`, with at least one argument and the memory for them.
unfoldable pub set_up : Bool → List ℤ → Option (List ℕ × ℕ)
set_up calloc [] = none
set_up calloc (fd ∷ results) = elim (if calloc then open_all (fd ∷ results) else none) [
  | none ↦ none
  | some fds ↦ some (fds, highest fds 0 + 1)
]

-- The interrupts of each device while the program waits.
abbrev pub deliver : List ℕ → Ticks → Ticks
deliver [] d = d
deliver (j ∷ js) d = deliver js (example_handler j d)

abbrev pub deliver_all : List (List ℕ) → List Ticks → List Ticks
deliver_all js [] = []
deliver_all [] (d ∷ ds) = d ∷ ds
deliver_all (j ∷ js) (d ∷ ds) = deliver j d ∷ deliver_all js ds

-- The kernel's `select` calls the poll method of each file under its first argument; a file whose
-- mask is not 0 is then in the set, and no other.
abbrev pub masks : ℕ → List ℕ → List Ticks → List ℕ
masks n [] ds = []
masks n (fd ∷ fds) [] = []
masks n (fd ∷ fds) (d ∷ ds) = (if ltb fd n then (example_poll d).0 else 0) ∷ masks n fds ds

abbrev pub polled : ℕ → List ℕ → List Ticks → List Ticks
polled n [] ds = ds
polled n (fd ∷ fds) [] = []
polled n (fd ∷ fds) (d ∷ ds) = (if ltb fd n then (example_poll d).1 else d) ∷ polled n fds ds

abbrev pub none_set : List ℕ → Bool
none_set [] = true
none_set (m ∷ ms) = m == 0 && none_set ms

-- What the program writes of a read with a buffer of 4096 bytes; a read that sleeps holds it up.
unfoldable pub written : Outcome → Option (Option (List ℕ) × Ticks)
written (asleep d) = none
written (returned out_of_bounds d) = some (none, d)
written (returned (reply (negsuc n) bytes) d) = some (none, d)
written (returned (reply (pos n) bytes) d) = some ((if n == 0 then none else some bytes), d)

unfoldable pub read_one : ℕ → Ticks → Option (Option (List ℕ) × Ticks)
read_one mask d =
    let read = written (example_read false [] 4096 0 d) in
    if mask == 0 then some (none, d) else read

unfoldable pub read_set : List ℕ → List Ticks → Option (List (Option (List ℕ)) × List Ticks)
read_set [] ds = some ([], ds)
read_set (m ∷ ms) [] = some ([], [])
read_set (m ∷ ms) (d ∷ ds) = elim (read_one m d) [
  | none ↦ none
  | some (out, d') ↦ elim (read_set ms ds) [
    | none ↦ none
    | some (outs, ds') ↦ some (out ∷ outs, d' ∷ ds')
  ]
]

-- A turn of the loop: a signal ends the wait and the program, or the interrupts of each device or a
-- second without any end the wait.
pub data Turn : Type 0 where
  signal : Turn
  waited : List (List ℕ) → Turn

unfoldable pub select_round :
    ℕ → List ℕ → List (List ℕ) → List Ticks → Option (List (Option (List ℕ)) × List Ticks)
select_round n fds js ds =
    let ready = deliver_all js ds in
    let ms = masks n fds ready in
    let checked = polled n fds ready in
    if none_set ms then some (map (λ m. none) ms, checked) else read_set ms checked

unfoldable pub watch :
    ℕ → List ℕ → List Turn → List Ticks → Option (List (List (Option (List ℕ))) × List Ticks)
watch n fds [] ds = some ([], ds)
watch n fds (signal ∷ turns) ds = some ([], ds)
watch n fds (waited js ∷ turns) ds = elim (select_round n fds js ds) [
  | none ↦ none
  | some (out, ds') ↦ elim (watch n fds turns ds') [
    | none ↦ none
    | some (outs, last) ↦ some (out ∷ outs, last)
  ]
]

-- `FD_SETSIZE`, the number of bits of an `fd_set`. A file with another number is set outside it.
abbrev pub fd_setsize : ℕ
fd_setsize = 1024

abbrev pub in_set : List ℕ → Bool
in_set [] = true
in_set (fd ∷ fds) = ltb fd fd_setsize && in_set fds

-- How the program ends or goes on: refused at its start, with a write outside the set, asleep in a
-- read, or at the end of the given turns with what it wrote in each, and the devices.
pub data End : Type 0 where
  refused : End
  outside : End
  held_up : End
  wrote : List (List (Option (List ℕ))) → List Ticks → End

unfoldable pub select_main : Bool → List ℤ → List Turn → List Ticks → End
select_main calloc results turns ds = elim (set_up calloc results) [
  | none ↦ refused
  | some (fds, n) ↦
      if not (in_set fds)
      then outside
      else elim (watch n fds turns ds) [ none ↦ held_up | some (outs, last) ↦ wrote outs last ]
]

-- What it promises: in each turn every queue that is not empty gives its first value.
abbrev pub first : Queue → Option (List ℕ)
first [] = none
first (x ∷ q) = some (line x)

abbrev pub push_all : List ℕ → Queue → Queue
push_all [] q = q
push_all (j ∷ js) q = push_all js (Queue.push j q)

abbrev pub push_each : List (List ℕ) → List Queue → List Queue
push_each js [] = []
push_each [] (q ∷ qs) = q ∷ qs
push_each (j ∷ js) (q ∷ qs) = push_all j q ∷ push_each js qs

abbrev pub queue_watch : List Turn → List Queue → List (List (Option (List ℕ))) × List Queue
queue_watch [] qs = ([], qs)
queue_watch (signal ∷ turns) qs = ([], qs)
queue_watch (waited js ∷ turns) qs =
    let full = push_each js qs in
    let (outs, last) = queue_watch turns (map Queue.tail full) in (map first full ∷ outs, last)
