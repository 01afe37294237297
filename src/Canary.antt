-- ===== src/Canary.antt =====
-- listener/canary: the raw listener. Checksum and Send build the packets that go out, State holds
-- the connections and their table, Handler is `handleTCP`.
pub mod Checksum
pub mod State
pub mod Send
pub mod Handler
pub mod Knocks
mod Examples
