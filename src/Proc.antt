-- ===== src/Proc.antt =====
-- The /proc files of exemples/02-appels-systeme and of solutions/tp-II-02-proc-current-pid.c and
-- tp-II-03-proc-sum.c.
pub mod Entries
pub mod Load
pub mod Current
pub mod Value
pub mod Parents
pub mod Reads
pub mod Writes
mod Tests
