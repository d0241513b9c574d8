-- ===== src/Coreutils/Tr.antt =====
-- tr, 02-coreutils/tr/rust-rewrite.
pub mod Sequence
pub mod Sets
pub mod Operation
pub mod Main
mod Tests
