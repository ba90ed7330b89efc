-- ===== src/Lib.antt =====
-- The remote-attestation sample and the basic enclave of the SGX experiments.
--
-- code-experiments/attestation/remote is a program in two parts that talk by messages. The App
-- (app/app.cpp) drives an enclave (enclave/enclave.cpp) and sends requests through a simulated
-- network (service_provider/network_ra.cpp) to a service provider
-- (service_provider/service_provider.cpp). The service provider registers with a simulated
-- attestation server (service_provider/ias_ra.cpp) on message 0, and on message 1 exchanges keys
-- (service_provider/ecp.cpp) and builds message 2. code-experiments/basic-enclave is a second
-- program: an enclave whose calls show the attributes of the interface and the thread primitives.
--
-- Prelude holds what the parts share: tests, lists, byte strings, integers, and the steps of C
-- code that go on, stop with a return code, or run into undefined behaviour (Effects): a read
-- through a NULL pointer, behind the body of a request, or of a variable that was not written.
-- Codes has the enumerations of the headers. Crypto is the interface of the crypto library, which
-- is a binary, and so a parameter: a record of functions, with the laws IsSha256 (the streaming
-- hash computes a digest of what it is fed) and Works (every call succeeds) as named hypotheses.
--
-- Ecp is ecp.cpp: memcpy_s, verify_cmac128, derive_key in both builds. Ias is ias_ra.cpp, and
-- Quote the quote of ias_ra.h with its report body as bytes in memory. Sp.State is the static
-- data of service_provider.cpp, with counts of the response buffers and the crypto contexts that
-- are held; Sp.Msg0 and Sp.Msg1 are sp_ra_proc_msg0_req and sp_ra_proc_msg1_req, the second cut
-- into the steps between its comments (Sp.Msg1.Keys, Sp.Msg1.Assemble). The flag `supplied` is
-- the build with SUPPLIED_KEY_DERIVATION. Network is network_ra.cpp; `session` is a sequence of
-- requests, each with its own crypto library, `exchange` one with the same library throughout,
-- and Network.Protocol the abstract machine that it implements. RaEnclave is enclave.cpp, with
-- the SDK as a parameter. App is app.cpp: `main` with its variables as a record, its steps in
-- App.Steps, its do-while loops as `do_while` with the retry counts 1, 4 and 2 of the source, its
-- requests answered by Network, and CLEANUP; the untrusted SDK (Platform), the passage into the
-- enclave and `malloc` are parameters, and a call that is retried is told how often it was made
-- before. Basic holds the calls of the basic enclave on arrays, pointers, numbers and the C and
-- C++ libraries, the App's functions that make them (Basic.Callers), and the App's `main` with
-- the arithmetic of the enclave (Basic.Main); the passage between both sides, which the SDK
-- generates, is a parameter (Basic.Bridge, and Basic.Functions for the calls that are allowed).
-- Thread is the producer, the consumers and the counter of the basic enclave: a thread's critical
-- section is one step, and a schedule is the list of the threads that take a step. Thread.Monitor
-- is the bounded buffer again with its mutex and the queues of its conditions, where each call of
-- a thread primitive, each test of a while, and each assignment to the buffer is a step; the
-- primitives are taken to do what the SDK documents, a signal waking one thread of the queue,
-- whichever. Thread.Lock is the counter again with its mutex, where the lock, the read, the
-- write, the test and the unlock are steps. Thread.Functions is the App's function that starts
-- and joins all of these threads, over Lock and Monitor.
--
-- Messages are byte strings where the code reads them from memory, and records where it builds
-- them. All functions are structural recursions, so no fuel is needed. Each child module of a
-- part proves what its name says; Tests has concrete inputs.
--
-- Not modelled: the message 3 handler, which stands in a comment, as does the App's use of
-- message 3; the crypto library and the SDK; the output of the remote-attestation program, but
-- for PRINT_BYTE_ARRAY (App.Print); the generated stubs; the arithmetic of floating-point
-- numbers. Two operations that the C standard leaves undefined do in the model what a compiler
-- makes of them: memcpy of 0 bytes from NULL, and the store of a 16-bit word at an odd address in
-- derive_key.
pub mod Prelude
pub mod Codes
pub mod Crypto
pub mod Ecp
pub mod Quote
pub mod Ias
pub mod Sp
pub mod Network
pub mod RaEnclave
pub mod App
pub mod Basic
pub mod Thread
pub mod Tests
