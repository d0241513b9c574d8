-- ===== src/Redis/Tests.antt =====
-- The theorems about mini-redis at concrete inputs.
mod Atoi
mod Params
mod Frames
mod Store
mod Task
mod Exchange
mod Sessions
