-- ===== src/Tests.antt =====
-- Runs of the models, and the theorems at concrete inputs.
mod Tables
mod Sessions
mod Transfers
mod Commands
mod Replica
mod Joining
mod Servers
mod Races
mod Whole
mod Synchronised
mod CommandLine
mod Network
mod Clients
mod Boxes
mod Events
mod History
mod Configuration
