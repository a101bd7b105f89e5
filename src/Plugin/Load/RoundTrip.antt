-- ===== src/Plugin/Load/RoundTrip.antt =====
-- What a start of the plugin reads of etcd, and that it reads back what a synchronisation wrote.
use valon.Prelude.{
  ℕ, ◌≡◌, refl, ap, sym, subst, ◌∙◌, Bool, true, false, Option, none, some, List, [], ◌∷◌, Bytes,
  if◌then◌else◌, ◌≟◌, ≟_iff, Bool-cases, Option-cases, inl, inr,
}
use valon.Text.Laws.{none_of_is_some}
use valon.Text.{has_prefix, trim_prefix}
use valon.Etcd.{Etcd, IsEtcd, KeyValue, find, IsDistinct}
use valon.Etcd.Keys.{peer_key, wg_ip_field, lan_field, nated_field}
use valon.Plugin.Cache
use valon.Plugin.Cache.{PeerInfo, PeerCache, new_peer_cache}
use valon.Plugin.Cache.Laws.{get-set, IsMap, IsMap-store}
use valon.Plugin.Monitor.Observed.{unless_nil}
use valon.Plugin.Sync.{peer_ops, write_peer_to_etcd}
use valon.Plugin.Sync.Written.{
  overwritten, write_peer_to_etcd-write_all, write_peer_to_etcd-contents,
}
use valon.Plugin.World.{World}
use valon.Plugin.Load.{
  peers_prefix, split_key, load_key, load_keys, set_all, loaded, load_from_etcd,
}
use valon.Plugin.Load.Keys.{IsUnmarked}
use valon.Etcd.Fields.{Field, of_wg_ip, of_lan, of_nated, of_alias, field_name}
use valon.Plugin.Load.Fields.{held, or_held, is_kept, KeysOfPeers, held-load_keys}
use valon.Plugin.Load.OnlyPeers.{
  KeysOfPeers-find, HasOnlyPeers, HasOnlyPeers-write_all, KeysOfPeers-peer_ops,
}

IsMap-load_key : (m : PeerCache) (kv : KeyValue) → IsMap m → IsMap (load_key m kv)
unfolding load_key
IsMap-load_key m (k, v) h = elim (Option-cases (split_key (trim_prefix k peers_prefix))) [
  | inl skipped ↦ rw (load_key, skipped) h
  | inr ((q, path), found) ↦ rw (load_key, found) (IsMap-store m q _ h)
]

IsMap-load_keys : (m : PeerCache) (kvs : List KeyValue) → IsMap m → IsMap (load_keys m kvs)
unfolding load_keys
IsMap-load_keys m [] h = h
IsMap-load_keys m (kv ∷ kvs) h = IsMap-load_keys (load_key m kv) kvs (IsMap-load_key m kv h)

stamped : ℕ → Option PeerInfo → Option PeerInfo → Option PeerInfo
stamped now none old = old
stamped now (some p) old = some (record p { updated_at = now })

get-set_all :
    (peers : PeerCache) (now : ℕ) (c : PeerCache) (r : Bytes)
    → IsMap peers
    → Cache.get (set_all peers now c) r ≡ stamped now (Cache.get peers r) (Cache.get c r)
unfolding set_all Cache.get stamped
get-set_all [] now c r h = refl
get-set_all ((k, p) ∷ peers) now c r h =
    get-set_all peers now (Cache.set c k p now) r h.1
    ∙ rw (get-set c k r p now) (elim (Bool-cases (k ≟ r)) [
      | inr other ↦ rw other refl
      | inl same ↦
          let none_later : Cache.get peers r ≡ none =
            rw (← (≟_iff k r).0 same) (none_of_is_some (Cache.get peers k) h.0) in
          rw (same, none_later) refl
    ])

held-stamped : (f : Field) (now : ℕ) (o : Option PeerInfo) → held f (stamped now o none) ≡ held f o
unfolding stamped
held-stamped f now none = refl
held-stamped of_wg_ip now (some p) = refl
held-stamped of_lan now (some p) = refl
held-stamped of_nated now (some p) = refl
held-stamped of_alias now (some p) = refl

abbrev pub fresh : {S : Type 0} → S → World S
fresh s = record { cache = new_peer_cache; etcd = s }

has_prefix-peer_key : (q name : Bytes) → has_prefix (peer_key q name) peers_prefix ≡ true
unfolding has_prefix peer_key
has_prefix-peer_key q name = refl

below :
    (b : Bool) (x y : Option Bytes) (v : Bytes)
    → x ≡ (if b then y else none)
    → x ≡ some v
    → (b ≡ true) × (y ≡ some v)
below true x y v h e = (refl, cc)
below false x y v h e = absurd cc

abbrev RepliesWith : List KeyValue → Bytes → Option Bytes → Type 0
RepliesWith kvs key x = KeysOfPeers kvs × IsDistinct kvs × (find kvs key ≡ x)

-- What is left of a field by a write and a load: an empty one comes back as it was in etcd.
abbrev pub reloaded : Bytes → Option Bytes → Bytes
reloaded value old = unless_nil value (or_held old [])

or_held-overwritten :
    (value : Bytes) (old : Option Bytes) → or_held (overwritten value old) [] ≡ reloaded value old
or_held-overwritten value old = elim (Bool-cases (value ≟ [])) [
  | inl empty ↦ rw empty refl
  | inr full ↦ rw full refl
]

module _ {S : Type 0} (e : Etcd S) where
  held-loaded :
      (now : ℕ) (s : S) (q : Bytes) (f : Field) (x : Option Bytes) (r : Option (List KeyValue) × S)
      → IsUnmarked q
      → is_kept f ≡ true
      → ((kvs : List KeyValue) → r.0 ≡ some kvs → RepliesWith kvs (peer_key q (field_name f)) x)
      → (loaded e now (fresh s) r).0 ≡ true
      → held f (Cache.get (loaded e now (fresh s) r).1.cache q) ≡ or_held x []
  unfolding loaded Cache.get
  held-loaded now s q f x (none, s') hq kept h done = absurd cc
  held-loaded now s q f x (some [], s') hq kept h done =
      let (keys, once, here) = h [] refl in ap (λ y. or_held y []) here
  held-loaded now s q f x (some (kv ∷ kvs), s') hq kept h done =
      let (keys, once, here) = h (kv ∷ kvs) refl in
      let map_of = load_keys [] (kv ∷ kvs) in
      ap (held f) (get-set_all map_of now [] q (IsMap-load_keys [] (kv ∷ kvs) tt))
      ∙ held-stamped f now (Cache.get map_of q)
      ∙ held-load_keys [] (kv ∷ kvs) q f keys once hq kept
      ∙ ap (λ y. or_held y []) here

  module _ (laws : IsEtcd e) where
    replies_with :
        (s : S) (q name : Bytes)
        → HasOnlyPeers (laws.contents s)
        → (kvs : List KeyValue) → (e.get_prefix s peers_prefix).0 ≡ some kvs
        → RepliesWith kvs (peer_key q name) (laws.contents s (peer_key q name))
    replies_with s q name only kvs got =
        let returns = laws.get_prefix_returns s peers_prefix kvs got in
        let once = laws.get_prefix_distinct s peers_prefix kvs got in
        (
          KeysOfPeers-find kvs once (λ j v found.
              let here = below (has_prefix j peers_prefix) _ _ v (returns j) found in
              only j v here.0 here.1),
          once,
          returns (peer_key q name) ∙ rw (has_prefix-peer_key q name) refl,
        )

    -- After a load at the start of the plugin that succeeds, each field of each peer is what etcd
    -- holds under its key, and empty if it holds none, for a public key that has none of the texts
    -- `/wg_ip`, `/alias` and `/endpoints`, if below the prefix of the peers etcd holds only the
    -- keys of such peers.
    pub load_from_etcd-fields :
        (now : ℕ) (s : S) (q : Bytes) (f : Field)
        → HasOnlyPeers (laws.contents s)
        → IsUnmarked q
        → is_kept f ≡ true
        → (load_from_etcd e now (fresh s)).0 ≡ true
        → held f (Cache.get (load_from_etcd e now (fresh s)).1.cache q)
          ≡ or_held (laws.contents s (peer_key q (field_name f))) []
    unfolding load_from_etcd
    load_from_etcd-fields now s q f only hq kept done =
        held-loaded now s q f _ (e.get_prefix s peers_prefix) hq kept
          (replies_with s q (field_name f) only) done

    -- A peer that a synchronisation has written and that a new start of the plugin loads has the
    -- fields with which it was written; of a field that was empty, the value that etcd held before
    -- comes back. The conditions on keys are those of the load.
    pub load_from_etcd-write_peer_to_etcd :
        (now : ℕ) (s : S) (q : Bytes) (p : PeerInfo)
        → HasOnlyPeers (laws.contents s)
        → IsUnmarked q
        → (write_peer_to_etcd e q p s).0 ≡ true
        → (load_from_etcd e now (fresh (write_peer_to_etcd e q p s).1)).0 ≡ true
        → let peer =
            Cache.get (load_from_etcd e now (fresh (write_peer_to_etcd e q p s).1)).1.cache q in
          (held of_wg_ip peer ≡ reloaded p.wg_ip (laws.contents s (peer_key q wg_ip_field)))
          × (held of_lan peer ≡ reloaded p.lan_endpoint (laws.contents s (peer_key q lan_field)))
          × (held of_nated peer
              ≡ reloaded p.nat_endpoint (laws.contents s (peer_key q nated_field)))
    load_from_etcd-write_peer_to_etcd now s q p only hq wrote read =
        let all = write_peer_to_etcd-write_all e laws q p s wrote in
        let still = subst HasOnlyPeers (sym all) (
          HasOnlyPeers-write_all (laws.contents s) (peer_ops q p) (KeysOfPeers-peer_ops q p hq)
            only) in
        let (ip, lan, nated) = write_peer_to_etcd-contents e laws q p s wrote in
        (
          load_from_etcd-fields now _ q of_wg_ip still hq refl read
              ∙ rw ip (or_held-overwritten p.wg_ip _),
          load_from_etcd-fields now _ q of_lan still hq refl read
              ∙ rw lan (or_held-overwritten p.lan_endpoint _),
          load_from_etcd-fields now _ q of_nated still hq refl read
              ∙ rw nated (or_held-overwritten p.nat_endpoint _),
        )
