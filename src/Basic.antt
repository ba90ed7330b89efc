-- ===== src/Basic.antt =====
-- The basic enclave, code-experiments/basic-enclave, less its threads: the arithmetic of
-- Enclave/Enclave.cpp, the calls of Enclave/Edger8rSyntax/Pointers.cpp, Arrays.cpp, Types.cpp and
-- Functions.cpp and of Enclave/TrustedLibrary/Libc.cpp and Libcxx.cpp with the functions of the App
-- that make them, and App/App.cpp.
pub mod Arithmetic
pub mod Checksum
pub mod Bridge
pub mod Floats
pub mod Types
pub mod Functions
pub mod Pointers
pub mod Callers
pub mod Libc
pub mod Libcxx
pub mod Arrays
pub mod Errors
pub mod Main
pub mod Output
