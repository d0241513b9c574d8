-- ===== src/Fish.antt =====
-- fish, 04-fish-shell/rust-rewrite.
pub mod Color
pub mod Wgetopt
mod Tests
