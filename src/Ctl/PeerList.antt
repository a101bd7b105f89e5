-- ===== src/Ctl/PeerList.antt =====
-- valonctl/pkg/client/etcd.go, ListPeers. The map of peers is a list of entries with distinct keys;
-- the slice that is made of it has them in any order. `time.Parse` is a parameter, and a time a
-- number, 0 the zero time.
pub mod Keys
use valon.Prelude.{
  ℕ, ◌+◌, Bool, true, false, not, ◌&&◌, ◌||◌, Option, none, some, List, [], ◌∷◌, ◌++◌, Bytes, codes,
  drop, if◌then◌else◌, ◌≟◌,
}
use valon.Text.{index, contains, split, trim_prefix}
use valon.Text.Path.{path_join}
use valon.Etcd.{Etcd, KeyValue}
use valon.Plugin.Load.{split_at, or_else}
use valon.Ctl.EtcdClient.{etcd_key_prefix}

pub record ListedPeer : Type 0 where
  pub pubkey : Bytes
  pub ip : Bytes
  pub alias : Bytes
  pub endpoint : Bytes
  pub lan_endpoint : Bytes
  pub nat_endpoint : Bytes
  pub last_seen : ℕ

abbrev pub PeerEntries : Type 0
PeerEntries = List (Bytes × ListedPeer)

abbrev pub list_prefix : Bytes
list_prefix = path_join (etcd_key_prefix ∷ codes "peers" ∷ []) ++ codes "/"

-- the place of "/ip" counts unless "/wg_ip" follows it
unfoldable pub legacy_ip : Bytes → Option ℕ → Option ℕ
legacy_ip key none = none
legacy_ip key (some at) = if not (contains (drop at key) (codes "/wg_ip")) then some at else none

-- the public key and the path of the field
unfoldable pub split_list_key : Bytes → Option (Bytes × Bytes)
unfolding legacy_ip
split_list_key key = or_else (split_at key (index key (codes "/wg_ip"))) (
    or_else (split_at key (legacy_ip key (index key (codes "/ip")))) (
      or_else (split_at key (index key (codes "/alias"))) (
        or_else (split_at key (index key (codes "/endpoint")))
          (split_at key (index key (codes "/last_seen"))))))

set_type : List Bytes → Bytes → ListedPeer → ListedPeer
set_type [] value p = p
set_type (endpoint_type ∷ rest) value p =
    if endpoint_type ≟ codes "lan"
    then record p { lan_endpoint = value }
    else if endpoint_type ≟ codes "nated"
    then record p { nat_endpoint = value }
    else p

-- for compatibility, the first endpoint is stored as the old field too
abbrev or_endpoint : Bytes → ListedPeer → ListedPeer
or_endpoint value p = if p.endpoint ≟ [] then record p { endpoint = value } else p

abbrev with_time : Option ℕ → ListedPeer → ListedPeer
with_time none p = p
with_time (some t) p = record p { last_seen = t }

abbrev new_listed : Bytes → ListedPeer
new_listed pubkey = record {
  pubkey = pubkey;
  ip = [];
  alias = [];
  endpoint = [];
  lan_endpoint = [];
  nat_endpoint = [];
  last_seen = 0;
}

unfoldable pub find_listed : PeerEntries → Bytes → ListedPeer
find_listed [] pubkey = new_listed pubkey
find_listed ((k, p) ∷ peers) pubkey = if k ≟ pubkey then p else find_listed peers pubkey

unfoldable pub put_listed : PeerEntries → Bytes → ListedPeer → PeerEntries
put_listed [] pubkey info = (pubkey, info) ∷ []
put_listed ((k, p) ∷ peers) pubkey info =
    if k ≟ pubkey then (k, info) ∷ peers else (k, p) ∷ put_listed peers pubkey info

module _ (parse_time : Bytes → Option ℕ) where
  -- the switch on the parts of the field path
  unfoldable pub set_listed : List Bytes → Bytes → ListedPeer → ListedPeer
  unfolding set_type
  set_listed [] value p = p
  set_listed (part ∷ rest) value p =
      if part ≟ codes "wg_ip" || part ≟ codes "ip"
      then record p { ip = value }
      else if part ≟ codes "alias"
      then record p { alias = value }
      else if part ≟ codes "endpoint"
      then record p { endpoint = value }
      else if part ≟ codes "endpoints"
      then or_endpoint value (set_type rest value p)
      else if part ≟ codes "last_seen"
      then with_time (parse_time value) p
      else p

  unfoldable pub list_key : PeerEntries → KeyValue → PeerEntries
  unfolding split_list_key find_listed put_listed set_listed
  list_key peers (key, value) = elim (split_list_key (trim_prefix key list_prefix)) [
    | none ↦ peers
    | some (pubkey, field_path) ↦
        put_listed peers pubkey
          (set_listed (split field_path b'/') value (find_listed peers pubkey))
  ]

  unfoldable pub list_keys : PeerEntries → List KeyValue → PeerEntries
  unfolding list_key
  list_keys peers [] = peers
  list_keys peers (kv ∷ kvs) = list_keys (list_key peers kv) kvs

  module _ {S : Type 0} (e : Etcd S) where
    listed : Option (List KeyValue) × S → Option PeerEntries × S
    unfolding list_keys
    listed (none, s) = (none, s)
    listed (some kvs, s) = (some (list_keys [] kvs), s)

    unfoldable pub list_peers : S → Option PeerEntries × S
    unfolding listed
    list_peers s = listed (e.get_prefix s list_prefix)
