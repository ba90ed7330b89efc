-- ===== src/Sp.antt =====
-- code-experiments/attestation/remote/service_provider/service_provider.cpp: the state of the
-- service provider and what its handlers share, with the message types of service_provider.h and
-- the response header of network_ra.h. The children hold one handler each. The traces that the
-- handlers print to stderr are left out.
pub mod State
pub mod Msg0
pub mod Msg1
pub use State.*
