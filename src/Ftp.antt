-- ===== src/Ftp.antt =====
-- services/ftp: the sessions of the FTP service. Session has the connection and its replies, Status
-- the texts of the reply codes, Command and Commands what each command does, Line how a line of the
-- client is answered.
pub mod Status
pub mod Session
pub mod Command
pub mod Commands
pub mod Line
mod Examples
