-- ===== src/Plugin/Sync/Dirty.antt =====
-- What a round of the synchronisation leaves in the cache.
use valon.Prelude.{
  ℕ, ◌≡◌, ◌∙◌, Bool, true, false, Option, some, List, [], ◌∷◌, Bytes, arith, ◌≟◌, Bool-cases, inl,
  inr,
}
use valon.Etcd.{Etcd}
use valon.Plugin.Cache
use valon.Plugin.Cache.{PeerInfo, PeerCache}
use valon.Plugin.Cache.Laws.{get-update}
use valon.Plugin.World.{World}
use valon.Plugin.Sync.{clear_dirty, after_write, write_peer_to_etcd, sync_peer, sync_to_etcd}

-- The peer is in the cache as it was, but perhaps for its time.
abbrev pub StillDirty : PeerInfo → Option PeerInfo → Type 0
StillDirty p o = (t : ℕ) × (o ≡ some (record p { updated_at = t }))

module _ {S : Type 0} (e : Etcd S) (now : ℕ) (k : Bytes) where
  after_write-StillDirty :
      (pubkey : Bytes) (w : World S) (r : Bool × S) (p : PeerInfo)
      → p.dirty ≡ true
      → Cache.get w.cache k ≡ some p
      → StillDirty p (Cache.get (after_write pubkey now w r).cache k)
  unfolding after_write clear_dirty
  after_write-StillDirty pubkey w (false, s) p dirty found = (p.updated_at, found)
  after_write-StillDirty pubkey w (true, s) p dirty found = elim (Bool-cases (pubkey ≟ k)) [
    | inl same ↦
        (now, get-update w.cache pubkey k clear_dirty now ∙ rw (same, found) (ground arith))
    | inr other ↦ (p.updated_at, get-update w.cache pubkey k clear_dirty now ∙ rw (other) found)
  ]

  sync_peer-StillDirty :
      (pubkey : Bytes) (q : PeerInfo) (w : World S) (p : PeerInfo)
      → p.dirty ≡ true
      → Cache.get w.cache k ≡ some p
      → StillDirty p (Cache.get (sync_peer e now pubkey q w).cache k)
  unfolding sync_peer
  sync_peer-StillDirty pubkey q w p dirty found = elim (Bool-cases q.dirty) [
    | inl is_dirty ↦
        simp is_dirty
          (after_write-StillDirty pubkey w (write_peer_to_etcd e pubkey q w.etcd) p dirty found)
    | inr clean ↦ simp clean (p.updated_at, found)
  ]

  -- A peer that needs a synchronisation still needs it after one, whether its write succeeds or
  -- not: `Update` marks as dirty every peer that it touches, also where it is called to clear the
  -- mark. The other fields of the peer but its time are as before.
  pub sync_to_etcd-StillDirty :
      (entries : List (Bytes × PeerInfo)) (w : World S) (p : PeerInfo)
      → p.dirty ≡ true
      → Cache.get w.cache k ≡ some p
      → StillDirty p (Cache.get (sync_to_etcd e now entries w).cache k)
  unfolding sync_to_etcd
  sync_to_etcd-StillDirty [] w p dirty found = (p.updated_at, found)
  sync_to_etcd-StillDirty ((pubkey, q) ∷ entries) w p dirty found =
      let (t, found') = sync_peer-StillDirty pubkey q w p dirty found in
      let (t', last) =
        sync_to_etcd-StillDirty entries (sync_peer e now pubkey q w) (record p { updated_at = t })
          dirty found' in
      (t', last)
