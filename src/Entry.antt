-- ===== src/Entry.antt =====
-- The entry and exit points of the modules, and what they leave of the kernel's resources.
mod Hardware
mod Registered
mod Faults
mod Openings
mod Catalogue
mod Tests
