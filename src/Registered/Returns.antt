-- ===== src/Registered/Returns.antt =====
-- RemovePeer of valonctl (valonctl/pkg/client/etcd.go) with an HTTP API that refuses the request
-- (coredns-plugin/valon/ddns.go), and then a round of the synchronisation of that plugin
-- (coredns-plugin/valon/etcd_sync.go).
use valon.Prelude.{ℕ, ◌≡◌, ◌≢◌, refl, ◌∙◌, true, Option, some, List, [], Bytes, ok, ≟_ne}
use valon.Etcd.{Etcd, IsEtcd}
use valon.Etcd.Fields.{of_wg_ip}
use valon.Etcd.Keys.{peer_key, wg_ip_field}
use valon.Plugin.Cache
use valon.Plugin.Cache.{PeerInfo}
use valon.Plugin.Cache.Laws.{IsMap}
use valon.Plugin.Ddns.{DdnsEndpointRequest}
use valon.Plugin.Sync.{sync_to_etcd}
use valon.Plugin.Sync.Progress.{round_answered, sync_to_etcd-contents}
use valon.Plugin.World.{World, Config}
use valon.Text.{Unicode}
use valon.Ctl.EtcdClient.{identify}
use valon.Registered.Deleted.{remove, seen_ip, remove-cache}
use valon.Registered.Shared.{on_world}

module _ {Body : Type 0} (decode_update : Body → Option DdnsEndpointRequest)
    (decode_delete : Body → Option Bytes) (marshal : Bytes → Body) {S : Type 0} (e : Etcd S)
    (laws : IsEtcd e) (u : Unicode) (v : Config) (ddns_listen base remote : Bytes) (called : ℕ)
    (arg pubkey alias : Bytes) (w : World S) where
  abbrev after_removal : World S
  after_removal =
      (remove decode_update decode_delete marshal e u v ddns_listen base remote called arg w).1

  -- A peer that valonctl removes comes back if the running plugin sees the request to its API come
  -- from another address than the Discovery Role's: if the peer is in the cache of the plugin with an
  -- address and the mark for the synchronisation, the next round, in which etcd answers the writes
  -- and no key stands twice in the entries, leaves its address in etcd under its key, also after a
  -- removal without an error. The plugin has a listen address and reads back the key that the request
  -- carries.
  pub remove_peer-sync_to_etcd :
      (now : ℕ) (entries : List (Bytes × PeerInfo)) (p : PeerInfo)
      → base ≢ []
      → ddns_listen ≢ []
      → decode_delete (marshal pubkey) ≡ some pubkey
      → pubkey ≢ []
      → (identify (on_world e) arg w).0 ≡ ok (pubkey, alias)
      → seen_ip decode_update decode_delete marshal e u v ddns_listen base remote called
        ≢ v.self_wg_ip
      → Cache.get w.cache pubkey ≡ some p
      → p.dirty ≡ true
      → p.wg_ip ≢ []
      → round_answered e now entries
          (remove decode_update decode_delete marshal e u v ddns_listen base remote called arg w).1
        ≡ true
      → IsMap entries
      → Cache.get entries pubkey
        ≡ Cache.get
            (remove decode_update decode_delete marshal e u v ddns_listen base remote called arg
              w).1.cache
            pubkey
      → laws.contents
          (sync_to_etcd e now entries
            (remove decode_update decode_delete marshal e u v ddns_listen base remote called arg
              w).1).etcd
          (peer_key pubkey wg_ip_field)
        ≡ some p.wg_ip
  remove_peer-sync_to_etcd now entries p has_base listens decodes has_key known elsewhere cached
        dirty has_ip answers map listed =
      let kept : after_removal.cache ≡ w.cache =
        remove-cache decode_update decode_delete marshal e u v ddns_listen base remote called arg
          pubkey alias w has_base listens decodes has_key known
        ∙ rw (≟_ne _ v.self_wg_ip elsewhere) refl in
      sync_to_etcd-contents e laws now pubkey of_wg_ip entries after_removal answers map
      ∙ rw (listed, kept, cached, dirty) (rw (≟_ne p.wg_ip [] has_ip) refl)
