-- ===== src/Net.antt =====
-- What the program uses of Go's standard package net.
pub mod Ip
