-- ===== src/Ctl.antt =====
-- The command line tool, valonctl.
pub mod Encoding
pub mod Validation
pub mod EtcdClient
pub mod DdnsDelete
pub mod Root
pub mod Connect
pub mod Address
pub mod Allocation
pub mod Config
pub mod WireguardClient
pub mod PeerAdd
pub mod PeerList
pub mod PeerRemove
pub mod PeerTable
pub mod Status
