-- ===== src/Tests/Running.antt =====
-- Polls of WireGuard, and runs of the plugin.
use valon.Prelude.{◌≡◌, some, [], ◌∷◌, Bytes, codes, if◌then◌else◌, ◌≟◌}
use valon.Plugin.Cache
use valon.Plugin.Cache.{PeerInfo}
use valon.Plugin.World.{World}
use valon.Plugin.Monitor.{WgPeer, process_peer, poll_wireguard}
use valon.Plugin.Monitor.Observed.{seen_peer, process_peer-known}
use valon.Plugin.Sync.{sync_to_etcd}
use valon.Plugin.Node.{Reaches, here, then_step, poll, sync_round}
use valon.Tests.Memory.{Memory, memory}
use valon.Tests.Samples.{no_runes, network, key, pub_key, peer, cached, store, world}
use valon.Tests.Dns.{peer_found}

abbrev device_peer : WgPeer
device_peer = record {
  public_key = key;
  endpoint = some (codes "203.0.113.9:41001");
  allowed_ips = (10 ∷ 0 ∷ 0 ∷ 8 ∷ []) ∷ [];
  last_handshake_time = 7;
}

process_peer-known_example :
    ((j : Bytes)
      → Cache.get (process_peer memory 9 device_peer world).cache j
        ≡ (if pub_key ≟ j then some (seen_peer device_peer 9 peer) else Cache.get cached j))
    × ((process_peer memory 9 device_peer world).etcd ≡ store)
process_peer-known_example = process_peer-known memory 9 device_peer world peer peer_found

abbrev bare_world : World Memory
bare_world = record { cache = []; etcd = [] }

abbrev polled : World Memory
polled = poll_wireguard memory 9 (some (device_peer ∷ [])) bare_world

abbrev synced : World Memory
synced = sync_to_etcd memory 10 (Cache.get_all polled.cache) polled

run : Reaches memory no_runes network bare_world synced
run =
    then_step polled synced (then_step bare_world polled here (poll 9 (some (device_peer ∷ []))))
      (sync_round 10 (Cache.get_all polled.cache))
