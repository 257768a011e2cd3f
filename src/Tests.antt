-- ===== src/Tests.antt =====
-- Runs of the definitions on inputs that can be followed in the source, and the theorems at such
-- inputs, over the ASCII tables.
mod Opened
mod Policies
mod Notices
mod Configs
mod Stores
mod Guardians
mod Rooms
mod Publishers
mod Bots
mod BotRooms
mod Webhooks
mod Transports
mod Scripts
