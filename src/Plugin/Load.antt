-- ===== src/Plugin/Load.antt =====
-- coredns-plugin/valon/valon.go, loadFromEtcd. The local map of peers is a list of entries with
-- distinct keys, and a pointer in it is only reached through its key. The range over that map may
-- come in any order; each key stands once in it, so the order of the calls of `Set` is immaterial.
pub mod Keys
pub mod Fields
pub mod OnlyPeers
pub mod RoundTrip
pub mod Valid
pub mod Reads
use valon.Prelude.{
  ℕ, ◌+◌, Bool, true, false, Option, none, some, List, [], ◌∷◌, Bytes, codes, take, drop,
  if◌then◌else◌, ◌≟◌,
}
use valon.Text.{index, split, trim_prefix}
use valon.Etcd.{Etcd, KeyValue}
use valon.Plugin.Cache
use valon.Plugin.Cache.{PeerInfo, PeerCache}
use valon.Plugin.World.{World}

abbrev pub peers_prefix : Bytes
peers_prefix = codes "/valon/peers/"

-- the text before the mark, and the text from the byte behind its slash
abbrev pub split_at : Bytes → Option ℕ → Option (Bytes × Bytes)
split_at key none = none
split_at key (some idx) = some (take idx key, drop (idx + 1) key)

abbrev pub or_else : Option (Bytes × Bytes) → Option (Bytes × Bytes) → Option (Bytes × Bytes)
or_else none other = other
or_else (some parts) other = some parts

-- the public key and the path of the field
unfoldable pub split_key : Bytes → Option (Bytes × Bytes)
split_key key = or_else (split_at key (index key (codes "/wg_ip"))) (
    or_else (split_at key (index key (codes "/alias")))
      (split_at key (index key (codes "/endpoints/"))))

set_endpoint : List Bytes → Bytes → PeerInfo → PeerInfo
set_endpoint [] value p = p
set_endpoint (endpoint_type ∷ rest) value p =
    if endpoint_type ≟ codes "lan"
    then record p { lan_endpoint = value }
    else if endpoint_type ≟ codes "nated"
    then record p { nat_endpoint = value }
    else p

-- the switch on the parts of the field path
unfoldable pub set_field : List Bytes → Bytes → PeerInfo → PeerInfo
unfolding set_endpoint
set_field [] value p = p
set_field (part ∷ rest) value p =
    if part ≟ codes "wg_ip"
    then record p { wg_ip = value }
    else if part ≟ codes "endpoints"
    then set_endpoint rest value p
    else p

abbrev pub only_key : Bytes → PeerInfo
only_key pubkey = record {
  pub_key = pubkey;
  wg_ip = [];
  lan_endpoint = [];
  nat_endpoint = [];
  last_handshake = 0;
  updated_at = 0;
  dirty = false;
}

-- a new peer unless there is one
abbrev pub or_new : Bytes → Option PeerInfo → PeerInfo
or_new pubkey none = only_key pubkey
or_new pubkey (some p) = p

-- the body of the loop over the keys
unfoldable pub load_key : PeerCache → KeyValue → PeerCache
load_key peers (key, value) = elim (split_key (trim_prefix key peers_prefix)) [
  | none ↦ peers
  | some (pubkey, field_path) ↦
      Cache.store peers pubkey
        (set_field (split field_path b'/') value (or_new pubkey (Cache.get peers pubkey)))
]

unfoldable pub load_keys : PeerCache → List KeyValue → PeerCache
load_keys peers [] = peers
load_keys peers (kv ∷ kvs) = load_keys (load_key peers kv) kvs

unfoldable pub set_all : PeerCache → ℕ → PeerCache → PeerCache
set_all [] now c = c
set_all ((pubkey, p) ∷ peers) now c = set_all peers now (Cache.set c pubkey p now)

module _ {S : Type 0} (e : Etcd S) where
  loaded : ℕ → World S → Option (List KeyValue) × S → Bool × World S
  loaded now w (none, s) = (false, record w { etcd = s })
  loaded now w (some [], s) = (true, record w { etcd = s })
  loaded now w (some (kv ∷ kvs), s) =
      (true, record { cache = set_all (load_keys [] (kv ∷ kvs)) now w.cache; etcd = s })

  -- true for the nil error
  unfoldable pub load_from_etcd : ℕ → World S → Bool × World S
  unfolding loaded
  load_from_etcd now w = loaded now w (e.get_prefix w.etcd peers_prefix)
