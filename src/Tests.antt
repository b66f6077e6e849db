-- ===== src/Tests.antt =====
-- The theorems at concrete inputs.
mod Sample
mod OrderNumbers
mod Money
mod Uploads
mod Rounds
mod Tasks
mod Sessions
mod Pools
mod Requests
mod Steps
mod Starts
mod Stops
mod Credits
mod Turns
mod Balances
mod Readers
mod Configs
