-- ===== src/Coreutils.antt =====
-- coreutils, 02-coreutils.
pub mod Cat
pub mod Echo
pub mod Tr
mod Tests
