-- ===== src/Threaded.antt =====
-- The server of concurrent_stockserver/thread_based.
pub mod Family
pub mod Sbuf
pub mod Requests
pub mod Service
