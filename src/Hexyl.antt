-- ===== src/Hexyl.antt =====
-- hexyl, 01-hexyl/original-rust/src: the hex viewer.
pub mod Offset
pub mod Byte
pub mod Printer
pub mod Line
pub mod Dump
pub mod PrintAll
pub mod Main
pub mod Run
mod Tests
pub mod Builder
