-- ===== src/Tests.antt =====
-- The theorems at concrete inputs.
mod Data
mod Strings
mod Requests
mod Pools
mod Caches
mod Transfers
mod Threads
mod Whole
mod Steps
mod Clients
mod Images
