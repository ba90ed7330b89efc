-- ===== src/Tests.antt =====
-- Concrete inputs for the theorems, and the theorems at these inputs.
pub mod Data
mod Protocol
mod Keys
mod Evidence
mod Threads
mod Enclaves
mod Apps
mod Monitors
mod Calls
mod Programs
