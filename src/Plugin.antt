-- ===== src/Plugin.antt =====
-- The CoreDNS plugin, coredns-plugin/valon.
pub mod Encoding
pub mod Cache
pub mod World
pub mod Ddns
pub mod Sync
pub mod Monitor
pub mod Load
pub mod Start
pub mod Setup
pub mod Message
pub mod Handler
pub mod Node
pub mod Loops
pub mod Init
