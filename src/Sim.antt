-- ===== src/Sim.antt =====
-- crates/grimoire-sim/src: the client of the system.
pub mod Client
pub mod Agreement
mod Tests
