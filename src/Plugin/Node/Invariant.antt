-- ===== src/Plugin/Node/Invariant.antt =====
-- What holds of the cache however the plugin runs.
use valon.Text.{Unicode}
use valon.Etcd.{Etcd}
use valon.Plugin.Cache.Valid.{IsValid}
use valon.Plugin.World.{World, Config}
use valon.Plugin.Ddns.Valid.{update-IsValid, delete-IsValid}
use valon.Plugin.Sync.Valid.{sync-IsValid}
use valon.Plugin.Monitor.Valid.{poll-IsValid}
use valon.Plugin.Node.{
  Step, query, endpoint_update, endpoint_delete, sync_round, poll, Reaches, here, then_step,
}

module _ {S : Type 0} (e : Etcd S) where
  Step-IsValid :
      (u : Unicode) (v : Config) (x y : World S)
      → Step e u v x y
      → IsValid x.cache
      → IsValid y.cache
  Step-IsValid u v x y (query q entries) valid = valid
  Step-IsValid u v x y (endpoint_update r now) valid = update-IsValid e u v r now x valid
  Step-IsValid u v x y (endpoint_delete r) valid = delete-IsValid e v r x valid
  Step-IsValid u v x y (sync_round now entries) valid = sync-IsValid e now entries x valid
  Step-IsValid u v x y (poll now peers) valid = poll-IsValid e now peers x valid

  -- However the handlers and loops of the plugin follow one another, from a cache with distinct
  -- keys in which every peer is stored under its own key they lead only to such caches.
  pub Reaches-IsValid :
      (u : Unicode) (v : Config) (x y : World S)
      → Reaches e u v x y
      → IsValid x.cache
      → IsValid y.cache
  Reaches-IsValid u v x y here valid = valid
  Reaches-IsValid u v x _ (then_step z y run step) valid =
      Step-IsValid u v z y step (Reaches-IsValid u v x z run valid)
