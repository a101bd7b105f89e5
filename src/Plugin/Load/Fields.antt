-- ===== src/Plugin/Load/Fields.antt =====
-- What the loader reads of each field of each peer.
use valon.Prelude.{
  sym, ◌≡◌, ◌≢◌, refl, ap, ◌∙◌, Bool, true, false, ◌&&◌, Option, none, some, List, [], ◌∷◌, ◌++◌,
  Bytes, codes, if◌then◌else◌, ◌≟◌, ≟_iff, Bool-cases, inl, inr,
}
use valon.Text.{split, trim_prefix, has_prefix}
use valon.Etcd.{KeyValue, find, IsDistinct}
use valon.Etcd.Fields.{Field, of_wg_ip, of_lan, of_nated, of_alias, field_name, ≟-peer_key}
use valon.Etcd.Keys.{peer_key, wg_ip_field, lan_field, nated_field, alias_field}
use valon.Plugin.Cache
use valon.Plugin.Cache.{PeerInfo, PeerCache}
use valon.Plugin.Cache.Laws.{get-store}
use valon.Plugin.Load.{peers_prefix, split_key, set_field, or_new, load_key, load_keys}
use valon.Plugin.Load.Keys.{
  IsUnmarked, split_key-wg_ip, split_key-alias, split_key-lan, split_key-nated,
}

-- the value that a peer holds of a field; the alias is not kept
abbrev pub field_of : Field → PeerInfo → Bytes
field_of of_wg_ip p = p.wg_ip
field_of of_lan p = p.lan_endpoint
field_of of_nated p = p.nat_endpoint
field_of of_alias p = []

abbrev pub held : Field → Option PeerInfo → Bytes
held f none = []
held f (some p) = field_of f p

-- a field that is not empty is held by a peer
pub held-some :
    (f : Field) (o : Option PeerInfo) (value : Bytes)
    → value ≢ []
    → held f o ≡ value
    → (p : PeerInfo) × (o ≡ some p) × (field_of f p ≡ value)
held-some f none value h e = absurd (h (sym e))
held-some f (some p) value h e = (p, refl, e)

abbrev pub or_held : Option Bytes → Bytes → Bytes
or_held none old = old
or_held (some value) old = value

abbrev pub is_kept : Field → Bool
is_kept of_alias = false
is_kept f = true

trim_prefix-peer_key :
    (q name : Bytes) → trim_prefix (peer_key q name) peers_prefix ≡ q ++ (codes "/" ++ name)
unfolding trim_prefix peer_key has_prefix
trim_prefix-peer_key q name = refl

pub split_key-peer_key :
    (q : Bytes)
    → IsUnmarked q
    → (g : Field)
    → split_key (trim_prefix (peer_key q (field_name g)) peers_prefix) ≡ some (q, field_name g)
split_key-peer_key q h of_wg_ip = rw (trim_prefix-peer_key q wg_ip_field) (split_key-wg_ip q h)
split_key-peer_key q h of_lan = rw (trim_prefix-peer_key q lan_field) (split_key-lan q h)
split_key-peer_key q h of_nated = rw (trim_prefix-peer_key q nated_field) (split_key-nated q h)
split_key-peer_key q h of_alias = rw (trim_prefix-peer_key q alias_field) (split_key-alias q h)

field_of-set_field :
    (g f : Field) (v : Bytes) (p : PeerInfo)
    → is_kept f ≡ true
    → field_of f (set_field (split (field_name g) b'/') v p)
      ≡ (if field_name g ≟ field_name f then v else field_of f p)
unfolding set_field split ◌≟◌
field_of-set_field of_wg_ip of_wg_ip v p h = refl
field_of-set_field of_wg_ip of_lan v p h = refl
field_of-set_field of_wg_ip of_nated v p h = refl
field_of-set_field of_lan of_wg_ip v p h = refl
field_of-set_field of_lan of_lan v p h = refl
field_of-set_field of_lan of_nated v p h = refl
field_of-set_field of_nated of_wg_ip v p h = refl
field_of-set_field of_nated of_lan v p h = refl
field_of-set_field of_nated of_nated v p h = refl
field_of-set_field of_alias of_wg_ip v p h = refl
field_of-set_field of_alias of_lan v p h = refl
field_of-set_field of_alias of_nated v p h = refl
field_of-set_field g of_alias v p h = absurd cc

held-or_new : (q : Bytes) (f : Field) (o : Option PeerInfo) → field_of f (or_new q o) ≡ held f o
held-or_new q of_wg_ip none = refl
held-or_new q of_lan none = refl
held-or_new q of_nated none = refl
held-or_new q of_alias none = refl
held-or_new q f (some p) = refl

-- what `load_key` stores, seen from any key
held-set_field :
    (m : PeerCache) (q r v : Bytes) (g f : Field)
    → is_kept f ≡ true
    → held f (
        if q ≟ r
        then some (set_field (split (field_name g) b'/') v (or_new q (Cache.get m q)))
        else Cache.get m r)
      ≡ (if q ≟ r && field_name g ≟ field_name f then v else held f (Cache.get m r))
held-set_field m q r v g f kept = elim (Bool-cases (q ≟ r)) [
  | inr other ↦ rw other refl
  | inl same ↦
      rw (same, ← (≟_iff q r).0 same)
        (field_of-set_field g f v (or_new q (Cache.get m q)) kept
          ∙ ap (λ x. if field_name g ≟ field_name f then v else x)
              (held-or_new q f (Cache.get m q)))
]

-- one key of etcd changes the one field that it names
held-load_key :
    (m : PeerCache) (q r v : Bytes) (g f : Field)
    → IsUnmarked q
    → IsUnmarked r
    → is_kept f ≡ true
    → held f (Cache.get (load_key m (peer_key q (field_name g), v)) r) ≡ (
        if peer_key q (field_name g) ≟ peer_key r (field_name f) then v else held f (Cache.get m r))
unfolding load_key
held-load_key m q r v g f hq hr kept =
    rw (load_key, split_key-peer_key q hq g)
      (rw
        (
          get-store m q r (set_field (split (field_name g) b'/') v (or_new q (Cache.get m q))),
          ≟-peer_key q r g f,
        )
        (held-set_field m q r v g f kept))

-- the key of a field of a peer whose public key has none of the marks
pub record IsPeerKey (key : Bytes) : Type 0 where
  pub owner : Bytes
  pub unmarked : IsUnmarked owner
  pub field : Field
  pub spelled : key ≡ peer_key owner (field_name field)

abbrev pub KeysOfPeers : List KeyValue → Type 0
KeysOfPeers [] = Unit
KeysOfPeers ((k, v) ∷ kvs) = IsPeerKey k × KeysOfPeers kvs

or_held_later :
    (k j v old : Bytes) (kvs : List KeyValue)
    → find kvs k ≡ none
    → or_held (find kvs j) (if k ≟ j then v else old)
      ≡ or_held (if k ≟ j then some v else find kvs j) old
or_held_later k j v old kvs once = elim (Bool-cases (k ≟ j)) [
  | inr other ↦ rw other refl
  | inl same ↦ rw (same, ← (≟_iff k j).0 same, once) refl
]

pub held-load_keys :
    (m : PeerCache) (kvs : List KeyValue) (r : Bytes) (f : Field)
    → KeysOfPeers kvs
    → IsDistinct kvs
    → IsUnmarked r
    → is_kept f ≡ true
    → held f (Cache.get (load_keys m kvs) r)
      ≡ or_held (find kvs (peer_key r (field_name f))) (held f (Cache.get m r))
unfolding load_keys
held-load_keys m [] r f hk hd hr kept = refl
held-load_keys m ((k, v) ∷ kvs) r f hk hd hr kept =
    let here = hk.0 in
    let step = held-load_key m here.owner r v here.field f here.unmarked hr kept in
    let moved = rw (← here.spelled) at step in
    held-load_keys (load_key m (k, v)) kvs r f hk.1 hd.1 hr kept
    ∙ ap (or_held (find kvs (peer_key r (field_name f)))) moved
    ∙ or_held_later k (peer_key r (field_name f)) v (held f (Cache.get m r)) kvs hd.0
