-- ===== src/User.antt =====
-- xsk/user.rs: the adapters through which entries are written to and read from the rings.
pub mod Iter
pub mod Handle
pub mod Write
pub mod Read
mod Tests
