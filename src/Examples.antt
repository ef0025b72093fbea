-- ===== src/Examples.antt =====
-- The theorems at concrete messages.
mod Streams
mod Buffers
mod Messages
mod Histories
mod Servers
mod Rooms
mod Rounds
mod Tasks
mod Numbers
