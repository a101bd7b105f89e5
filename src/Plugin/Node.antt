-- ===== src/Plugin/Node.antt =====
-- The running plugin (coredns-plugin/valon/valon.go, Init): the handlers and loops that it starts,
-- each as a step on the shared state, in any order. A loop ranges over what `GetAll` returns in any
-- order, so `entries` is any list.
pub mod Invariant
pub mod Progress
pub mod Served
pub mod Published
use valon.Prelude.{ℕ, Option, List, Bytes}
use valon.Text.{Unicode}
use valon.Etcd.{Etcd}
use valon.Plugin.Cache.{PeerInfo, new_peer_cache}
use valon.Plugin.World.{World, Config}
use valon.Plugin.Message.{Query}
use valon.Plugin.Ddns.{
  DdnsEndpointRequest, HttpRequest, handle_endpoint_update, handle_endpoint_delete,
}
use valon.Plugin.Sync.{sync_to_etcd}
use valon.Plugin.Monitor.{WgPeer, poll_wireguard}
use valon.Plugin.Handler.{serve_dns}

pub data Step {S : Type 0} (e : Etcd S) (u : Unicode) (v : Config) (w : World S)
    : World S → Type 0 where
  query :
      (q : Query) (entries : List (Bytes × PeerInfo))
      → Step e u v w (record w { etcd = (serve_dns e u v q entries w).1 })
  endpoint_update :
      (r : HttpRequest DdnsEndpointRequest) (now : ℕ)
      → Step e u v w (handle_endpoint_update e u v r now w).1
  endpoint_delete : (r : HttpRequest Bytes) → Step e u v w (handle_endpoint_delete e v r w).1
  sync_round :
      (now : ℕ) (entries : List (Bytes × PeerInfo)) → Step e u v w (sync_to_etcd e now entries w)
  poll : (now : ℕ) (peers : Option (List WgPeer)) → Step e u v w (poll_wireguard e now peers w)

pub data Reaches {S : Type 0} (e : Etcd S) (u : Unicode) (v : Config) (w : World S)
    : World S → Type 0 where
  here : Reaches e u v w w
  then_step : (x y : World S) → Reaches e u v w x → Step e u v x y → Reaches e u v w y
