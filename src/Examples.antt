-- ===== src/Examples.antt =====
-- The theorems on concrete data.
mod Data
mod Rules
mod Queue
mod Runs
mod Sessions
mod Settings
mod Access
mod Requests
mod Upgrades
mod Issuing
mod Rounds
mod Starts
mod Commands
