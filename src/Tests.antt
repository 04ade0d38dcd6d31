-- ===== src/Tests.antt =====
-- The theorems at concrete tables, and runs of the operations on them.
mod Drive
mod Files
mod Turns
mod Strings
mod Screen
mod Storage
mod Calls
mod Pages
mod Memory
