-- ===== src/Examples.antt =====
-- The theorems at concrete states and messages.
mod Boards
mod Portals
mod Consoles
mod Messages
mod Worlds
mod Writes
