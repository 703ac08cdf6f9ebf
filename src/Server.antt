-- ===== src/Server.antt =====
-- The stock server of concurrent_stockserver/.
pub mod Tree
pub mod Event
pub mod Pool
pub mod Rio
pub mod Parser
pub mod StockFile
pub mod Text
pub mod Ledger
