-- ===== src/Tests.antt =====
-- Runs of the theorems on a small network, and the samples that they share.
mod Memory
mod Samples
mod Device
mod Dns
mod Http
mod Stored
mod Names
mod Running
mod Registry
mod Start
mod Allocate
mod Adding
mod Listing
mod Corefile
mod Composed
mod Deleting
mod Publishing
mod Settings
mod Starting
