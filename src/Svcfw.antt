-- ===== src/Svcfw.antt =====
-- crates/grimoire-svcfw/src: what the services share.
pub mod Pusher
pub mod Registration
pub mod Order
pub mod Rejoin
pub mod Directory
pub mod Profiles
pub mod Memory
pub mod Cells
mod Tests
