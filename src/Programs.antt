-- ===== src/Programs.antt =====
-- The example programs and main.cpp: their options, the keyboard test and the pipe test.
pub mod Options
pub mod Keyboard
pub mod Pipe
pub mod Signals
