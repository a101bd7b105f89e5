-- ===== src/Net.antt =====
-- What the program calls of Go's packages net and strconv.
pub mod HostPort
pub mod Addr
pub mod Dotted
pub mod Number
pub mod Cidr
pub mod HostRoute
pub mod IpText
