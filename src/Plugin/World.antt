-- ===== src/Plugin/World.antt =====
-- The state that the plugin's handlers and loops share, and the part of the configuration that
-- they read (coredns-plugin/valon/valon.go, struct Valon).
use valon.Prelude.{Bytes}
use valon.Plugin.Cache.{PeerCache}

-- `S` is the state of etcd.
pub record World (S : Type 0) : Type 0 where
  pub cache : PeerCache
  pub etcd : S

pub record Config : Type 0 where
  pub zone : Bytes
  pub self_wg_ip : Bytes
