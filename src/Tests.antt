-- ===== src/Tests.antt =====
-- The theorems at concrete inputs.
mod Frames
mod Rules
mod Firewalls
mod Leases
mod Answers
mod Rounds
mod Tables
mod Devices
mod SmallTables
mod Commands
mod Fingerprints
