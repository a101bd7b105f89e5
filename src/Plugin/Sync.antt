-- ===== src/Plugin/Sync.antt =====
-- coredns-plugin/valon/etcd_sync.go: one round of the synchronisation loop. The loop ranges over
-- the copy that `GetAll` returns; `entries` is what that range yields, in the order of the run. The
-- copy holds the cache's own pointers, but a round writes to a peer only after it has read it.
pub mod Dirty
pub mod Written
pub mod Marked
pub mod Progress
pub mod Valid
use valon.Prelude.{
  ℕ, Bool, true, false, not, Option, none, some, List, [], ◌∷◌, ◌++◌, Bytes, if◌then◌else◌, ◌≟◌,
}
use valon.Etcd.{Etcd, KeyValue}
use valon.Etcd.Keys.{peer_key, wg_ip_field, lan_field, nated_field}
use valon.Plugin.Cache
use valon.Plugin.Cache.{PeerInfo}
use valon.Plugin.World.{World}

abbrev pub put_unless_empty : Bytes → Bytes → List KeyValue
put_unless_empty key value = if value ≟ [] then [] else (key, value) ∷ []

-- the operations that `writePeerToEtcd` prepares
unfoldable pub peer_ops : Bytes → PeerInfo → List KeyValue
peer_ops pubkey p =
    put_unless_empty (peer_key pubkey wg_ip_field) p.wg_ip
    ++ (put_unless_empty (peer_key pubkey lan_field) p.lan_endpoint
        ++ put_unless_empty (peer_key pubkey nated_field) p.nat_endpoint)

committed : Option Bool → Bool
committed none = false
committed (some b) = true

clear_dirty : PeerInfo → PeerInfo
clear_dirty p = record p { dirty = false }

after_write : {S : Type 0} → Bytes → ℕ → World S → Bool × S → World S
unfolding clear_dirty
after_write pubkey now w (true, s) = record {
  cache = Cache.update w.cache pubkey clear_dirty now;
  etcd = s;
}
after_write pubkey now w (false, s) = record w { etcd = s }

module _ {S : Type 0} (e : Etcd S) where
  run_ops : S → List KeyValue → Bool × S
  unfolding committed
  run_ops s [] = (true, s)
  run_ops s (op ∷ ops) = let (r, s') = e.txn s [] (op ∷ ops) in (committed r, s')

  -- true for the nil error
  unfoldable pub write_peer_to_etcd : Bytes → PeerInfo → S → Bool × S
  unfolding run_ops
  write_peer_to_etcd pubkey p s = run_ops s (peer_ops pubkey p)

  -- the body of the loop
  unfoldable pub sync_peer : ℕ → Bytes → PeerInfo → World S → World S
  unfolding after_write write_peer_to_etcd
  sync_peer now pubkey p w =
      if not p.dirty then w else after_write pubkey now w (write_peer_to_etcd pubkey p w.etcd)

  unfoldable pub sync_to_etcd : ℕ → List (Bytes × PeerInfo) → World S → World S
  unfolding sync_peer
  sync_to_etcd now [] w = w
  sync_to_etcd now ((pubkey, p) ∷ entries) w = sync_to_etcd now entries (sync_peer now pubkey p w)
