-- ===== src/Examples.antt =====
-- Tests, and the theorems at concrete inputs.
mod Kernels
mod Lists
mod Workers
mod Debug
mod Interleaved
mod Selects
mod Epolls
mod Requests
mod Life
mod Handover
mod Memory
