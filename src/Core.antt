-- ===== src/Core.antt =====
-- src/core.c: the library's constructor, the wrappers of the system's functions, the handover of
-- file descriptors from the version that runs, and the count of workers.
pub mod Workers
pub mod Handover
pub mod Wrappers
pub mod Debug
