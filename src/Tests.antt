-- ===== src/Tests.antt =====
-- The theorems at concrete inputs.
mod Fixtures
mod Keys
mod Confirms
mod Collecting
mod History
mod Signing
mod Listening
mod Relaying
mod Rounds
mod Queries
mod Commands
mod Stores
mod Deploying
