-- ===== src/Plugin/Load/Valid.antt =====
-- A load keeps the cache valid.
use valon.Prelude.{
  codes, ℕ, ◌≡◌, refl, ap, sym, ◌∙◌, inl, inr, false, Option, none, some, List, [], ◌∷◌, Bytes, ◌≟◌,
  ≟_iff, ≟_refl, Bool-cases, Option-cases,
}
use mathlib.Core.Option
use valon.Text.{split, trim_prefix, is_some}
use valon.Etcd.{Etcd, KeyValue}
use valon.Plugin.Cache
use valon.Plugin.Cache.{PeerInfo, PeerCache, new_peer_cache}
use valon.Plugin.Cache.Laws.{IsMap-store, get-store}
use valon.Plugin.Cache.Valid.{Keyed, IsValid, new_peer_cache-IsValid, IsValid-set}
use valon.Plugin.World.{World}
use valon.Plugin.Load.{
  set_endpoint, set_field, or_new, split_key, peers_prefix, load_key, load_keys, set_all, loaded,
  load_from_etcd,
}

pub_key-set_endpoint :
    (parts : List Bytes) (v : Bytes) (p : PeerInfo) → (set_endpoint parts v p).pub_key ≡ p.pub_key
unfolding set_endpoint
pub_key-set_endpoint [] v p = refl
pub_key-set_endpoint (t ∷ rest) v p = elim (Bool-cases (t ≟ codes "lan")) [
  | inl lan ↦ rw (set_endpoint, lan) refl
  | inr other ↦ elim (Bool-cases (t ≟ codes "nated")) [
    | inl nated ↦ rw (set_endpoint, other, nated) refl
    | inr unknown ↦ rw (set_endpoint, other, unknown) refl
  ]
]

-- no field of a peer is its key
pub_key-set_field :
    (parts : List Bytes) (v : Bytes) (p : PeerInfo) → (set_field parts v p).pub_key ≡ p.pub_key
unfolding set_field
pub_key-set_field [] v p = refl
pub_key-set_field (part ∷ rest) v p = elim (Bool-cases (part ≟ codes "wg_ip")) [
  | inl wg_ip ↦ rw (set_field, wg_ip) refl
  | inr other ↦ elim (Bool-cases (part ≟ codes "endpoints")) [
    | inl endpoint ↦ rw (set_field, other, endpoint) (pub_key-set_endpoint rest v p)
    | inr unknown ↦ rw (set_field, other, unknown) refl
  ]
]

pub_key-or_new : (m : PeerCache) (q : Bytes) → Keyed m → (or_new q (Cache.get m q)).pub_key ≡ q
pub_key-or_new m q keyed = elim (Option-cases (Cache.get m q)) [
  | inl missing ↦ rw missing refl
  | inr (p, found) ↦ rw found (keyed q p found)
]

IsValid-store :
    (m : PeerCache) (q : Bytes) (p : PeerInfo)
    → IsValid m
    → p.pub_key ≡ q
    → IsValid (Cache.store m q p)
IsValid-store m q p valid own = (
  IsMap-store m q p valid.0,
  λ j r found. elim (Bool-cases (q ≟ j)) [
    | inl same ↦
        let e : some p ≡ some r = sym (get-store m q j p ∙ rw same refl) ∙ found in
        ap (λ x. x.pub_key) (sym (Option.some_inj.0 e)) ∙ own ∙ (≟_iff q j).0 same
    | inr other ↦ valid.1 j r (sym (get-store m q j p ∙ rw other refl) ∙ found)
  ],
)

IsValid-load_key : (m : PeerCache) (kv : KeyValue) → IsValid m → IsValid (load_key m kv)
unfolding load_key
IsValid-load_key m (k, v) h = elim (Option-cases (split_key (trim_prefix k peers_prefix))) [
  | inl skipped ↦ rw (load_key, skipped) h
  | inr ((q, path), found) ↦
      rw (load_key, found)
        (IsValid-store m q _ h (
          pub_key-set_field (split path b'/') v (or_new q (Cache.get m q))
          ∙ pub_key-or_new m q h.1))
]

IsValid-load_keys : (m : PeerCache) (kvs : List KeyValue) → IsValid m → IsValid (load_keys m kvs)
unfolding load_keys
IsValid-load_keys m [] h = h
IsValid-load_keys m (kv ∷ kvs) h = IsValid-load_keys (load_key m kv) kvs (IsValid-load_key m kv h)

IsValid-rest : (k : Bytes) (p : PeerInfo) (m : PeerCache) → IsValid ((k, p) ∷ m) → IsValid m
unfolding Cache.get
IsValid-rest k p m h = (
  h.0.1,
  λ j r found. h.1 j r (elim (Bool-cases (k ≟ j)) [
    | inr other ↦ rw (Cache.get, other) found
    | inl same ↦
        let gone : is_some (Cache.get m j) ≡ false = rw (← (≟_iff k j).0 same) h.0.0 in
        absurd (cc (rw found at gone))
  ]),
)

IsValid-set_all :
    (peers : PeerCache) (now : ℕ) (c : PeerCache)
    → IsValid peers
    → IsValid c
    → IsValid (set_all peers now c)
unfolding set_all Cache.get
IsValid-set_all [] now c hp hc = hc
IsValid-set_all ((k, p) ∷ peers) now c hp hc =
    IsValid-set_all peers now (Cache.set c k p now) (IsValid-rest k p peers hp)
      (IsValid-set c k now hc p (hp.1 k p (rw (≟_refl k) refl)))

module _ {S : Type 0} (e : Etcd S) where
  IsValid-loaded :
      (now : ℕ) (w : World S) (r : Option (List KeyValue) × S)
      → IsValid w.cache
      → IsValid (loaded e now w r).1.cache
  unfolding loaded
  IsValid-loaded now w (none, s) h = h
  IsValid-loaded now w (some [], s) h = h
  IsValid-loaded now w (some (kv ∷ kvs), s) h =
      IsValid-set_all (load_keys [] (kv ∷ kvs)) now w.cache
        (IsValid-load_keys [] (kv ∷ kvs) new_peer_cache-IsValid) h

  pub IsValid-load_from_etcd :
      (now : ℕ) (w : World S) → IsValid w.cache → IsValid (load_from_etcd e now w).1.cache
  unfolding load_from_etcd
  IsValid-load_from_etcd now w h = IsValid-loaded now w (e.get_prefix w.etcd peers_prefix) h
