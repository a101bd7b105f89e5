-- ===== src/Plugin/Sync/Marked.antt =====
-- A round of the synchronisation takes no mark from a peer.
use valon.Prelude.{ℕ, Bool, true, false, List, [], ◌∷◌, Bytes, Bool-cases, inl, inr}
use valon.Etcd.{Etcd}
use valon.Plugin.Cache.{PeerInfo}
use valon.Plugin.Cache.Marked.{Marked, Marked-update}
use valon.Plugin.World.{World}
use valon.Plugin.Sync.{clear_dirty, after_write, write_peer_to_etcd, sync_peer, sync_to_etcd}

module _ {S : Type 0} (e : Etcd S) (q : Bytes) where
  Marked-after_write :
      (k : Bytes) (now : ℕ) (w : World S) (r : Bool × S)
      → Marked q w.cache
      → Marked q (after_write k now w r).cache
  unfolding after_write
  Marked-after_write k now w (true, s) h = Marked-update q w.cache k clear_dirty now (λ other. h)
  Marked-after_write k now w (false, s) h = h

  pub Marked-sync :
      (now : ℕ) (entries : List (Bytes × PeerInfo)) (w : World S)
      → Marked q w.cache
      → Marked q (sync_to_etcd e now entries w).cache
  unfolding sync_to_etcd sync_peer
  Marked-sync now [] w h = h
  Marked-sync now ((k, p) ∷ entries) w h =
      Marked-sync now entries (sync_peer e now k p w) (elim (Bool-cases p.dirty) [
        | inl dirty ↦ simp dirty (Marked-after_write k now w (write_peer_to_etcd e k p w.etcd) h)
        | inr clean ↦ simp clean h
      ])
