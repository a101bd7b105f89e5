-- ===== src/Tests/Stored.antt =====
-- The cache, and its synchronisation with etcd.
use valon.Prelude.{List, ◌≡◌, refl, Bool, true, [], ◌∷◌, codes, ◌≟◌}
use valon.Etcd.Keys.{peer_key, lan_field}
use valon.Plugin.Cache
use valon.Plugin.Cache.{PeerInfo}
use valon.Plugin.Cache.{new_peer_cache}
use valon.Plugin.Cache.Refines.{
  Call, call_get, call_set, call_update, call_delete, call_count, replies, map_replies, empty_map,
  replies-map_replies,
}
use valon.Plugin.Sync.{peer_ops, write_peer_to_etcd, sync_to_etcd}
use valon.Plugin.Sync.Dirty.{StillDirty, sync_to_etcd-StillDirty}
use valon.Tests.Memory.{Memory, memory}
use valon.Tests.Samples.{pub_key, peer, cached, store, world}
use valon.Tests.Dns.{peer_found}

abbrev mark_offline : PeerInfo → PeerInfo
mark_offline p = record p { lan_endpoint = [] }

sync_to_etcd-StillDirty_example :
    StillDirty peer (Cache.get (sync_to_etcd memory 9 (Cache.get_all cached) world).cache pub_key)
sync_to_etcd-StillDirty_example =
    sync_to_etcd-StillDirty memory 9 pub_key (Cache.get_all cached) world peer refl peer_found

-- the peer has gone offline since its endpoint was written
abbrev stale : Memory
stale = (peer_key pub_key lan_field, codes "192.168.1.5:51820") ∷ store

abbrev written : Bool × Memory
written = write_peer_to_etcd memory pub_key (mark_offline peer) stale

written_done : written.0 ≡ true
unfolding memory write_peer_to_etcd peer_ops ◌≟◌
written_done = refl

abbrev calls : List Call
calls =
    call_set (codes "a") peer 1
    ∷ call_update (codes "a") mark_offline 2
    ∷ call_get (codes "a")
    ∷ call_count
    ∷ call_delete (codes "a")
    ∷ call_get (codes "a")
    ∷ []

replies-map_replies_example : replies calls new_peer_cache ≡ map_replies calls empty_map
replies-map_replies_example = replies-map_replies calls
