-- ===== src/Tests.antt =====
-- The theorems at concrete inputs.
mod Blocks
mod Instructions
mod Text
mod Running
mod Tables
mod Files
mod Hashes
mod Options
mod Programs
mod Sources
mod Clocks
