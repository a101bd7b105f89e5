-- ===== src/Plugin/Load/OnlyPeers.antt =====
-- The keys below the prefix of the peers in etcd, and that the synchronisation writes no others.
use valon.Prelude.{
  ◌≡◌, refl, subst, append-nil, true, none, some, List, [], ◌∷◌, ◌++◌, Bytes, ◌≟◌, ≟_iff, ≟_refl,
  Bool-cases, inl, inr,
}
use valon.Text.{has_prefix}
use valon.Etcd.{KeyValue, Contents, find, write, write_all, IsDistinct}
use valon.Etcd.Keys.{peer_key}
use valon.Plugin.Cache.{PeerInfo}
use valon.Plugin.Sync.{put_unless_empty, peer_ops}
use valon.Plugin.Load.{peers_prefix}
use valon.Plugin.Load.Keys.{IsUnmarked}
use valon.Etcd.Fields.{Field, of_wg_ip, of_lan, of_nated, field_name}
use valon.Plugin.Load.Fields.{IsPeerKey, KeysOfPeers}

pub KeysOfPeers-find :
    (kvs : List KeyValue)
    → IsDistinct kvs
    → ((j v : Bytes) → find kvs j ≡ some v → IsPeerKey j)
    → KeysOfPeers kvs
KeysOfPeers-find [] hd h = tt
KeysOfPeers-find ((k, v) ∷ kvs) hd h = (
  h k v (rw (≟_refl k) refl),
  KeysOfPeers-find kvs hd.1 λ j w found. h j w (elim (Bool-cases (k ≟ j)) [
    | inl same ↦ let gone : find kvs j ≡ none = rw (← (≟_iff k j).0 same) hd.0 in absurd cc
    | inr other ↦ rw other found
  ]),
)

-- Below the prefix of the peers, etcd holds only keys of peers.
abbrev pub HasOnlyPeers : Contents → Type 0
HasOnlyPeers m = (j v : Bytes) → has_prefix j peers_prefix ≡ true → m j ≡ some v → IsPeerKey j

pub HasOnlyPeers-write_all :
    (m : Contents) (kvs : List KeyValue)
    → KeysOfPeers kvs
    → HasOnlyPeers m
    → HasOnlyPeers (write_all m kvs)
HasOnlyPeers-write_all m [] keys only = only
HasOnlyPeers-write_all m ((k, v) ∷ kvs) keys only =
    HasOnlyPeers-write_all (write m k v) kvs keys.1 (λ j w inside found. elim (Bool-cases (k ≟ j)) [
      | inl same ↦ subst IsPeerKey ((≟_iff k j).0 same) keys.0
      | inr other ↦ only j w inside (rw other at found)
    ])

KeysOfPeers-put_unless_empty :
    (q value : Bytes) (f : Field) (kvs : List KeyValue)
    → IsUnmarked q
    → KeysOfPeers kvs
    → KeysOfPeers (put_unless_empty (peer_key q (field_name f)) value ++ kvs)
KeysOfPeers-put_unless_empty q value f kvs hq keys = elim (Bool-cases (value ≟ [])) [
  | inl empty ↦ rw empty keys
  | inr full ↦ rw full (record { owner = q; unmarked = hq; field = f; spelled = refl }, keys)
]

pub KeysOfPeers-peer_ops : (q : Bytes) (p : PeerInfo) → IsUnmarked q → KeysOfPeers (peer_ops q p)
unfolding peer_ops
KeysOfPeers-peer_ops q p hq = KeysOfPeers-put_unless_empty q p.wg_ip of_wg_ip _ hq (
    KeysOfPeers-put_unless_empty q p.lan_endpoint of_lan _ hq (
      subst KeysOfPeers (append-nil _)
        (KeysOfPeers-put_unless_empty q p.nat_endpoint of_nated [] hq tt)))
