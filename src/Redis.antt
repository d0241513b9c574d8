-- ===== src/Redis.antt =====
-- mini-redis, 03-mini-redis/original-rust/src.
pub mod Frame
pub mod Connection
pub mod Db
pub mod Parse
pub mod Cmd
pub mod Client
pub mod Session
pub mod Subscriber
pub mod Server
mod Tests
