-- ===== src/Ipp.antt =====
-- services/ipp: the printing service. Values has the attributes (values.go), Message the groups and
-- messages (group.go, message.go), Handler the answer to a request. Numbers of 16 and 32 bits are held
-- as their bits.
pub mod Values
pub mod Message
pub mod Handler
pub mod RoundTrip
pub mod Faults
mod Examples
