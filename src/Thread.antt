-- ===== src/Thread.antt =====
-- The threads of the basic enclave: code-experiments/basic-enclave/Enclave/TrustedLibrary/Thread.cpp
-- and App/TrustedLibrary/Thread.cpp.
pub mod Counter
pub mod Buffer
pub mod Monitor
pub mod Lock
pub mod Functions
-- LOOPS_PER_THREAD of Include/user_types.h
use sgx_experiments.Prelude.{ℕ, ◌*◌}

abbrev pub loops_per_thread : ℕ
loops_per_thread = 500
