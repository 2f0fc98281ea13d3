-- ===== src/Kernel.antt =====
-- What the drivers use of the kernel.
pub mod Errno
pub mod Format
pub mod Copy
pub mod Module
pub mod Held
pub mod Buffer
pub mod Task
