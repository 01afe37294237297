-- ===== src/Ftp/Commands.antt =====
-- The commands of services/ftp/cmd.go, by what they work on.
pub mod Account
pub mod Files
pub mod Transfers
