-- ===== src/Ledger.antt =====
-- The Ledger device: ledger.c and the files of ledger/.
pub mod Layer
pub mod Hid
pub mod Api
pub mod Device
pub mod Script
pub mod Commands
