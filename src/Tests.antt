-- ===== src/Tests.antt =====
-- The theorems at concrete inputs, and runs of the definitions.
mod Samples
mod Waivers
mod Policies
mod Scans
mod Accounts
mod Deliveries
mod Plans
mod Tokens
mod Versions
mod Messages
mod Configurations
mod Servers
