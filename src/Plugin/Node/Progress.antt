-- ===== src/Plugin/Node/Progress.antt =====
-- What is marked for the synchronisation is written by its next round, however the plugin runs in
-- between.
use valon.Prelude.{ℕ, ◌≡◌, refl, ap, sym, ◌∙◌, true, some, List, Bytes}
use valon.Text.{Unicode}
use valon.Etcd.{Etcd, IsEtcd}
use valon.Etcd.Fields.{Field, field_name}
use valon.Etcd.Keys.{peer_key}
use valon.Plugin.Cache
use valon.Plugin.Cache.{PeerInfo}
use valon.Plugin.Cache.Laws.{IsMap}
use valon.Plugin.Cache.Marked.{is_marked, Marked}
use valon.Plugin.Cache.Valid.{IsValid}
use valon.Plugin.Ddns.Marked.{Marked-endpoint_update, Marked-endpoint_delete}
use valon.Plugin.Load.Fields.{field_of}
use valon.Plugin.Monitor.Marked.{Marked-poll}
use valon.Plugin.Sync.{sync_to_etcd}
use valon.Plugin.Sync.Marked.{Marked-sync}
use valon.Plugin.Sync.Written.{overwritten}
use valon.Plugin.Sync.Progress.{round_answered, sync_to_etcd-contents}
use valon.Plugin.World.{World, Config}
use valon.Plugin.Node.{
  Step, query, endpoint_update, endpoint_delete, sync_round, poll, Reaches, here, then_step,
}
use valon.Plugin.Node.Invariant.{Reaches-IsValid}

module _ {S : Type 0} (e : Etcd S) (q : Bytes) where
  Step-Marked :
      (u : Unicode) (v : Config) (x y : World S)
      → Step e u v x y
      → IsMap x.cache
      → Marked q x.cache
      → Marked q y.cache
  Step-Marked u v x y (query r entries) map h = h
  Step-Marked u v x y (endpoint_update r now) map h = Marked-endpoint_update e q u v r now x h
  Step-Marked u v x y (endpoint_delete r) map h = Marked-endpoint_delete e q v r x map h
  Step-Marked u v x y (sync_round now entries) map h = Marked-sync e q now entries x h
  Step-Marked u v x y (poll now peers) map h = Marked-poll e q now peers x h

  pub Reaches-Marked :
      (u : Unicode) (v : Config) (x y : World S)
      → Reaches e u v x y
      → IsValid x.cache
      → Marked q x.cache
      → Marked q y.cache
  Reaches-Marked u v x y here valid h = h
  Reaches-Marked u v x _ (then_step z y run step) valid h =
      Step-Marked u v z y step (Reaches-IsValid e u v x z run valid).0
        (Reaches-Marked u v x z run valid h)

  -- Once a peer is marked for the synchronisation, or not in the cache, the next round writes it,
  -- whatever the handlers and loops of the plugin do before the round: if the peer is then in the
  -- cache and among the entries of the round, in which no key stands twice, and etcd answers the
  -- writes of the round, then etcd holds each of its three fields that is not empty, and of one
  -- that is empty what it held before. The keys of the cache are distinct, and each peer is
  -- stored under its own key.
  pub Reaches_written :
      (laws : IsEtcd e) (u : Unicode) (v : Config) (x y : World S) (now : ℕ)
      (entries : List (Bytes × PeerInfo)) (p : PeerInfo) (f : Field)
      → round_answered e now entries y ≡ true
      → IsValid x.cache
      → Marked q x.cache
      → Reaches e u v x y
      → IsMap entries
      → Cache.get y.cache q ≡ some p
      → Cache.get entries q ≡ Cache.get y.cache q
      → laws.contents (sync_to_etcd e now entries y).etcd (peer_key q (field_name f))
        ≡ overwritten (field_of f p) (laws.contents y.etcd (peer_key q (field_name f)))
  Reaches_written laws u v x y now entries p f answers valid marked run map cached listed =
      let dirty : p.dirty ≡ true =
        ap is_marked (sym cached) ∙ Reaches-Marked u v x y run valid marked in
      sync_to_etcd-contents e laws now q f entries y answers map ∙ rw (listed, cached, dirty) refl
