-- ===== src/Plugin/Sync/Progress.antt =====
-- What a whole round of the synchronisation leaves in etcd, if etcd answers.
use valon.Prelude.{
  ℕ, ◌≡◌, refl, ap, ◌∙◌, Bool, true, false, Option, none, some, List, [], ◌∷◌, Bytes, if◌then◌else◌,
  ◌&&◌, ◌≟◌, ≟_iff, Bool-cases, inl, inr, arith,
}
use valon.Text.Laws.{none_of_is_some}
use valon.Etcd.{Etcd, IsEtcd}
use valon.Etcd.Fields.{Field, field_name}
use valon.Etcd.Keys.{peer_key}
use valon.Plugin.Cache
use valon.Plugin.Cache.{PeerInfo}
use valon.Plugin.Cache.Laws.{IsMap}
use valon.Plugin.Load.Fields.{field_of}
use valon.Plugin.Sync.{after_write, write_peer_to_etcd, sync_peer, sync_to_etcd}
use valon.Plugin.Sync.Written.{overwritten, write_all-peer_ops, write_peer_to_etcd-write_all}
use valon.Plugin.World.{World}

-- etcd answers each write of the round, in the state in which the round makes it
unfoldable pub round_answered : {S : Type 0} → Etcd S → ℕ → List (Bytes × PeerInfo) → World S → Bool
round_answered e now [] w = true
round_answered e now ((k, p) ∷ entries) w =
    let rest = round_answered e now entries (sync_peer e now k p w) in
    (if p.dirty then (write_peer_to_etcd e k p w.etcd).0 else true) && rest

-- Of a peer that is dirty a field that is not empty is written.
abbrev pub synced : Field → Option PeerInfo → Option Bytes → Option Bytes
synced f none old = old
synced f (some p) old = if p.dirty then overwritten (field_of f p) old else old

etcd-after_write :
    {S : Type 0} (k : Bytes) (now : ℕ) (w : World S) (r : Bool × S)
    → (after_write k now w r).etcd ≡ r.1
unfolding after_write
etcd-after_write k now w (true, s) = refl
etcd-after_write k now w (false, s) = refl

-- a round writes the peers that are marked
pub etcd-sync_peer :
    {S : Type 0} (e : Etcd S) (now : ℕ) (k : Bytes) (p : PeerInfo) (w : World S)
    → (sync_peer e now k p w).etcd
      ≡ (if p.dirty then (write_peer_to_etcd e k p w.etcd).1 else w.etcd)
unfolding sync_peer
etcd-sync_peer e now k p w = elim (Bool-cases p.dirty) [
  | inr clean ↦ simp clean refl
  | inl dirty ↦ simp dirty (etcd-after_write k now w (write_peer_to_etcd e k p w.etcd))
]

pub both_answered :
    (b written rest : Bool)
    → ((if b then written else true) && rest) ≡ true
    → ((if b then written else true) ≡ true) × (rest ≡ true)
both_answered b written rest h = ground arith

pub write_answered :
    (b written : Bool) → (if b then written else true) ≡ true → b ≡ true → written ≡ true
write_answered b written h dirty = ground arith

module _ {S : Type 0} (e : Etcd S) (laws : IsEtcd e) where
  module _ (now : ℕ) (q : Bytes) (f : Field) where
    abbrev in_etcd : World S → Option Bytes
    in_etcd w = laws.contents w.etcd (peer_key q (field_name f))

    sync_peer-contents :
        (k : Bytes) (p : PeerInfo) (w : World S)
        → (if p.dirty then (write_peer_to_etcd e k p w.etcd).0 else true) ≡ true
        → in_etcd (sync_peer e now k p w)
          ≡ (if k ≟ q then synced f (some p) (in_etcd w) else in_etcd w)
    unfolding sync_peer
    sync_peer-contents k p w h = elim (Bool-cases p.dirty) [
      | inr clean ↦ simp clean (ground arith)
      | inl dirty ↦
          let done = write_answered p.dirty _ h dirty in
          simp dirty (
            ap (λ s. laws.contents s (peer_key q (field_name f)))
              (etcd-after_write k now w (write_peer_to_etcd e k p w.etcd))
            ∙ ap (λ m. m (peer_key q (field_name f)))
                (write_peer_to_etcd-write_all e laws k p w.etcd done)
            ∙ write_all-peer_ops (laws.contents w.etcd) k q p f)
    ]

    -- After a round of the synchronisation in which etcd answers the writes, each of the three fields of each
    -- peer is what the peer has in the entries of the round, if it is marked there and the field is
    -- not empty, and otherwise what it was before, if no key stands twice in the entries.
    pub sync_to_etcd-contents :
        (entries : List (Bytes × PeerInfo)) (w : World S)
        → round_answered e now entries w ≡ true
        → IsMap entries
        → laws.contents (sync_to_etcd e now entries w).etcd (peer_key q (field_name f))
          ≡ synced f (Cache.get entries q) (laws.contents w.etcd (peer_key q (field_name f)))
    unfolding sync_to_etcd Cache.get round_answered
    sync_to_etcd-contents [] w answers h = refl
    sync_to_etcd-contents ((k, p) ∷ entries) w answers h =
        let (first, rest) = both_answered p.dirty (write_peer_to_etcd e k p w.etcd).0 _ answers in
        sync_to_etcd-contents entries (sync_peer e now k p w) rest h.1
        ∙ ap (synced f (Cache.get entries q)) (sync_peer-contents k p w first)
        ∙ elim (Bool-cases (k ≟ q)) [
          | inr other ↦ rw other refl
          | inl same ↦
              let later : Cache.get entries q ≡ none =
                rw (← (≟_iff k q).0 same) (none_of_is_some (Cache.get entries k) h.0) in
              rw (same, later) refl
        ]
