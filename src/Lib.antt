-- ===== src/Lib.antt =====
-- A library of models and theorems for the driver examples (exemples/) and the exercises' solutions
-- (solutions/) of the course "Ecriture de drivers et programmation noyau Linux".
--
-- The repository is a set of small kernel modules. Each is loaded by itself: its entry point
-- registers a device, an interrupt, a timer or a driver with the kernel, its methods are called by
-- the kernel, and its exit point gives back what the entry point took. Modules of one chapter are
-- versions of one program, and so a component here is the state that the versions share, with one
-- child module per version.
--
--   Base      shared names, lists over the native numbers, and signed results: ℤ is `ssize_t` or
--             `int`, with the wrap-around of 32 and 64 bits written out (i32, i64, sub_u64).
--   Kernel    what the modules ask of the kernel: error numbers, decimal texts as `snprintf` makes
--             them, copies from and to the caller, and the resources that a module holds. `Held`
--             counts as a fault each release of a resource that is not held. Kernel/Module is a
--             module as the kernel sees it, loaded and removed.
--   Text      the read system call that copies a text out in pieces, from `lg = strlen(...) -
--             *offset` on (solutions/tp-IV-01-counter-read.c:31-42); Text/Cat is a caller that
--             reads to the end.
--   Counter   solutions/tp-IV-01-counter-read.c, tp-IV-02-counter-write.c, tp-IV-03-counter-ioctl.c
--             (Counter/Single) and tp-IV-04-several-counters.c (Counter/Several): counter_read,
--             counter_write, counter_ioctl, counter_open. Counter/Load is the entry and exit points
--             of the first three; Counter/Program is the program solutions/set-step.c and a caller
--             that reads a counter to its end again and again.
--   Log       solutions/tp-III-02-log.c: the table of dated events (Log), log_read and log_write
--             under the names of the C functions; Log/Order writes to it and then reads it to the
--             end.
--   Message   solutions/tp-V-01-message-read-write.c (Message/Plain), tp-V-02-message-mutex.c
--             (Message/Mutex), tp-V-03-blocking-read.c and tp-V-04-blocking-write.c
--             (Message/Blocking): messages_read and messages_write on the table of 16 rows of 32
--             bytes. Message/Uses is programs that write texts and read them to their end,
--             Message/Waiting the queue of texts that processes wait at, Message/Kept a file that
--             stays open, Message/Overlap writers that overlap where there is no mutex,
--             Message/System the tables of methods with one under any sequence of calls, and
--             Message/Load the entry and exit points.
--   Fpga      exemples/05-acces-au-materiel/example-fpga.c: the file operations (Fpga/File), the
--             PCI device and its interrupts (Fpga/Pci), the character device (Fpga/Device), and
--             probe, remove, init and exit (Fpga/Probe), under the names of the C functions.
--             Fpga/System is the driver under any sequence of calls and interrupts.
--   Chardev   exemples/04-driver-caracteres/example-IV-07.c (Chardev/Race) and example-IV-08.c
--             (Chardev/Locked): example_read as steps of processes that share current_pid;
--             Chardev/Served is what the mutex ensures, Chardev/Collision what happens without it.
--             Chardev/Ids is example-IV-05.c and example-IV-06.c (example_read, example_ioctl),
--             Chardev/Program the program ioctl-example-IV-06.c, Chardev/Load the entry and exit
--             points of example-IV-01.c to example-IV-04.c, and Chardev/Misc those that
--             module_misc_device makes.
--   Proc      exemples/02-appels-systeme/example-II-01.c (Proc/Parents), example-II-03.c to
--             example-II-05.c and solutions/tp-II-02-proc-current-pid.c (Proc/Current),
--             example-II-06.c and solutions/tp-II-03-proc-sum.c (Proc/Value), and their entry and
--             exit points (Proc/Load, Proc/Entries).
--   Timer     exemples/03-api-du-noyau/example-III-03.c and example-III-04.c, the timers and their
--             removal (Timer, Timer/Stop), the extremes of the period (Timer/Jitter), the kernel
--             thread of exemples/05-acces-au-materiel/example-V-02.c (Timer/Thread), and
--             exemples/05-acces-au-materiel/example-V-11.c (Timer/Mapped).
--   Entry     what the entry and exit points of all these modules leave of the kernel's resources.
--             Entry/Catalogue lists the modules that register one thing, and
--             solutions/tp-III-03-memory-addresses.c.
--   Gpio      exemples/05-acces-au-materiel/example-V-03.c (Gpio/Toggle), example-V-04.c,
--             example-V-05.c and example-V-06.c (Gpio/Deferred): the handler, the tasklet, the work
--             item and the interrupt thread that toggle a line; Gpio/Input is the set-up that
--             example-V-07.c, example-V-08.c, example-V-09.c and example-select.c share. Gpio/Line
--             is example-V-01.c and example-V-01-with-fdt.c.
--   Net       exemples/06-driver-reseau/example-VI-03.c: open, stop, the header and the two
--             interrupt handlers (Net), the transmission (Net/Xmit), init and exit (Net/Load), the
--             set-up of a device and its counters (Net/Setup). Net/Bare is example-VI-02.c,
--             Net/First example-VI-01.c.
--   Usb       exemples/07-utilisation-bus-usb/example-VII-05.c: open, release, the callbacks and
--             the wait loops (Usb), write (Usb/Write), read (Usb/Read), probe and disconnect
--             (Usb/Probe). Usb/Listing is the probe of example-VII-02.c, which lists endpoints.
--             Usb/Load is the entry and exit points of example-VII-01.c to example-VII-05.c, and
--             Usb/Sessions the driver from its loading to its removal, with devices plugged and
--             unplugged.
--   Kit       exemples/07-utilisation-bus-usb/example-VII-04.c, the driver of the same kit that
--             only writes: open, release, the callback and the wait loops (Kit), write (Kit/Write),
--             probe and disconnect (Kit/Probe); and example-VII-03.c, which has no mutex and no
--             flag (Kit/Plain).
--   Ticks     exemples/05-acces-au-materiel/example-V-07.c (Ticks/Polled), example-V-08.c and
--             example-V-09.c (Ticks/Blocking), example-V-10.c (Ticks/PerOpen) and example-select.c
--             (Ticks/Select): the array of jiffies that a handler fills and a read empties.
--             Ticks/Queue is the bounded queue that they promise, and Ticks/Program the program
--             exemples/05-acces-au-materiel/cat-non-block.c that reads one of them. Ticks/Watch is
--             the program exemples/05-acces-au-materiel/test-select.c that waits for several, with
--             `FD_SETSIZE` and the first argument of `select`.
--
-- State is passed and returned. A lock is a Boolean field, and a wake-up a counter. What the kernel
-- decides is an argument: whether an allocation succeeds, what a registration returns, how many
-- bytes a copy leaves out (`left`), the number that `kstrtoint` reads. A loop around a wait takes
-- the list of the ways in which its waits end, each with what others do before the lock is taken
-- again, and is structural recursion on it; with the list used up the call is asleep. An access
-- outside an array or a mapping is an answer of its own, `out_of_bounds`. A copy to the caller that
-- fails is taken to have copied nothing that matters. Texts are lists of bytes, and the words of a
-- counter are 32-bit patterns.
--
-- `simple_read_from_buffer` is an argument, and IsSimpleRead says what its documentation says. The
-- readers of Chardev and the timers of Timer move one step at a time: a step is a function of the
-- state, and Reach is what any order of the steps leads to.
--
-- `cat` runs on fuel. A counter's text is shorter than 128 bytes, each read but the last gives a
-- byte at least, and so 128 reads reach the end; the log holds at most 64 texts of at most 62
-- bytes, and 4096 reads reach its end; a /proc file's text is shorter than 128 bytes, that of the
-- sum than 32. The loop over the parents of a process takes at most two turns more than the depth
-- of the process.
--
-- Not modelled: the messages that the modules print (but the list of Usb/Listing), memory ordering,
-- the registration of a device as a single kernel call (its result is an argument where the code
-- looks at it), the modules that only print (first modules and clocks), and the programs of the
-- user space other than cat-non-block.c, test-select.c, ioctl-example-IV-06.c and set-step.c.
pub mod Base
pub mod Kernel
pub mod Text
pub mod Counter
pub mod Message
pub mod Fpga
pub mod Gpio
pub mod Ticks
pub mod Chardev
pub mod Entry
pub mod Kit
pub mod Log
pub mod Net
pub mod Proc
pub mod Timer
pub mod Usb
