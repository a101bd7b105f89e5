-- ===== src/Plugin/Sync/Valid.antt =====
-- A round of the synchronisation keeps a cache valid.
use valon.Prelude.{ℕ, inl, inr, Bool, true, false, List, [], ◌∷◌, Bytes, Bool-cases}
use valon.Etcd.{Etcd}
use valon.Plugin.Cache.{PeerInfo}
use valon.Plugin.Cache.Valid.{IsValid, IsValid-update}
use valon.Plugin.World.{World}
use valon.Plugin.Sync.{clear_dirty, after_write, sync_peer, sync_to_etcd, write_peer_to_etcd}

module _ {S : Type 0} (e : Etcd S) where
  after_write-IsValid :
      (pubkey : Bytes) (now : ℕ) (w : World S) (r : Bool × S)
      → IsValid w.cache
      → IsValid (after_write pubkey now w r).cache
  unfolding after_write clear_dirty
  after_write-IsValid pubkey now w (true, s) valid =
      IsValid-update w.cache pubkey now valid clear_dirty (λ p own. own)
  after_write-IsValid pubkey now w (false, s) valid = valid

  pub sync-IsValid :
      (now : ℕ) (entries : List (Bytes × PeerInfo)) (w : World S)
      → IsValid w.cache
      → IsValid (sync_to_etcd e now entries w).cache
  unfolding sync_to_etcd sync_peer
  sync-IsValid now [] w valid = valid
  sync-IsValid now ((pubkey, p) ∷ entries) w valid =
      sync-IsValid now entries (sync_peer e now pubkey p w) (elim (Bool-cases p.dirty) [
        | inl dirty ↦
            simp dirty
              (after_write-IsValid pubkey now w (write_peer_to_etcd e pubkey p w.etcd) valid)
        | inr clean ↦ simp clean valid
      ])
