-- ===== src/Mixer.antt =====
-- mouse_mixer.cpp: one endpoint of the mixer, its queue of synthetic items and its writer.
-- `State` has the data, `Enqueue`, `Take` and `Written` the operations, the others the proofs.
pub mod State
pub mod Enqueue
pub mod Take
pub mod Written
pub mod Physical
pub mod Registry
pub mod Snapshot
pub mod Queue
pub mod Buttons
pub mod Ledger
pub mod Stale
pub mod Through
mod Tests
