-- ===== src/Kbd.antt =====
-- c/kbd.c: the keyboard driver.
pub mod Waiting
pub mod Queue
pub mod Scan
pub mod Driver
pub mod Extended
