-- ===== src/Request.antt =====
-- Request.c: receiving, parsing and answering a request.
pub mod Status
pub mod Lines
pub mod Name
pub mod Accept
pub mod Parse
pub mod Receive
