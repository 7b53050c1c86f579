-- ===== src/Ttyplay.antt =====
-- ttyplay.c, in parts: reading a record, and the loop that plays.
pub mod Read
pub mod Play
pub mod Wait
pub mod Main
