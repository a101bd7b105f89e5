-- ===== src/Plugin/Node/Published.antt =====
-- From a request to update an endpoint over the cache and etcd to the answers of another node.
use valon.Prelude.{
  ℕ, ◌≡◌, ◌≢◌, refl, ap, sym, ◌∙◌, true, false, some, List, [], ◌∷◌, Bytes, ≟_refl, All,
}
use mathlib.Core.Option
use valon.Text.{Unicode}
use valon.Base32.RoundTrip.{IsByte}
use valon.Base64
use valon.Etcd.{Etcd, IsEtcd}
use valon.Plugin.Cache
use valon.Plugin.Cache.{PeerInfo}
use valon.Plugin.Cache.Laws.{IsMap}
use valon.Plugin.Ddns.{
  DdnsEndpointRequest, HttpRequest, send_success, is_offline, offline_endpoint,
  handle_endpoint_update,
}
use valon.Plugin.Ddns.Update.{updated_peer, handle_endpoint_update-cache}
use valon.Plugin.Handler.{lan, a_record, serve_dns}
use valon.Plugin.Handler.Lookup.{qualified, name_of, key_label, EndsAt}
use valon.Plugin.Load.{load_from_etcd}
use valon.Plugin.Load.Keys.{IsUnmarked}
use valon.Plugin.Load.OnlyPeers.{HasOnlyPeers}
use valon.Plugin.Load.RoundTrip.{fresh}
use valon.Plugin.Message.{wrote, reply, type_a}
use valon.Plugin.Sync.{sync_to_etcd}
use valon.Plugin.Sync.Progress.{round_answered}
use valon.Plugin.World.{World, Config}
use valon.Plugin.Node.Served.{AllUnmarked, sync_served}

module _ {S : Type 0} (e : Etcd S) (laws : IsEtcd e) where
  module _ (u : Unicode) (v : Config) (r : HttpRequest DdnsEndpointRequest) (now : ℕ) (w : World S)
      (req : DdnsEndpointRequest) (message : Bytes) (p : PeerInfo) (body : r.body ≡ some req)
      (accepted : (handle_endpoint_update e u v r now w).0 ≡ send_success message)
      (known : Cache.get w.cache req.pub_key ≡ some p)
      (was_online : p.lan_endpoint ≢ offline_endpoint) where
    abbrev updated : World S
    updated = (handle_endpoint_update e u v r now w).1

    cached_after : Cache.get updated.cache req.pub_key ≡ some (updated_peer req now p)
    cached_after =
        handle_endpoint_update-cache e u v r now w req message body
          (λ q found.
            rw (← ap (λ x. x.lan_endpoint) (Option.some_inj.0 (sym known ∙ found))) was_online)
          accepted req.pub_key
        ∙ rw (≟_refl req.pub_key, known) refl

    -- An endpoint that a peer reports is served by every node: after a request to update that is
    -- answered with success, a round of the synchronisation that has the peer as it is then in the
    -- cache, and a start of the plugin on another node that loads etcd, that node answers the query
    -- lan.<label> with the IP of the endpoint. The peer was in the cache, without the offline
    -- marker as its endpoint, and the request does not mark it as offline; etcd answers the writes
    -- of the round; no key stands twice in the entries of the round; their keys, and those of the
    -- peers in etcd, have none of the texts `/wg_ip`, `/alias` and `/endpoints`.
    pub update_served :
        (key ip : Bytes) (round later : ℕ) (entries others : List (Bytes × PeerInfo))
        → is_offline req.lan_endpoint ≡ false
        → EndsAt req.lan_endpoint ip
        → All IsByte key
        → req.pub_key ≡ Base64.encode key
        → IsUnmarked req.pub_key
        → AllUnmarked entries
        → round_answered e round entries (handle_endpoint_update e u v r now w).1 ≡ true
        → IsMap entries
        → Cache.get entries req.pub_key
          ≡ Cache.get (handle_endpoint_update e u v r now w).1.cache req.pub_key
        → HasOnlyPeers (laws.contents (handle_endpoint_update e u v r now w).1.etcd)
        → (load_from_etcd e later
            (fresh (sync_to_etcd e round entries (handle_endpoint_update e u v r now w).1).etcd)).0
          ≡ true
        → (serve_dns e u v
            (record { name = qualified (name_of (lan (key_label u key))) v; qtype = type_a })
            others
            (load_from_etcd e later (
              fresh
                (sync_to_etcd e round entries (handle_endpoint_update e u v r now w).1).etcd)).1).0
          ≡ wrote (reply (a_record (qualified (name_of (lan (key_label u key))) v) ip ∷ []) []) 0
    update_served key ip round later entries others online ends bytes is_key unmarked all_unmarked
          answers map listed only done =
        let at_key : Cache.get updated.cache (Base64.encode key) ≡ some (updated_peer req now p) =
          rw (← is_key) cached_after in
        let endpoint : (updated_peer req now p).lan_endpoint ≡ req.lan_endpoint = rw online refl in
        sync_served e laws u v updated (updated_peer req now p) (lan (key_label u key)) key ip bytes
          refl at_key (rw endpoint ends) (rw (← is_key) unmarked) only round later entries others
          all_unmarked answers map (rw (← is_key) listed) done refl
