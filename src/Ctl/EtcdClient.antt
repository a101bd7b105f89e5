-- ===== src/Ctl/EtcdClient.antt =====
-- valonctl/pkg/client/etcd.go: the operations that change etcd. The state is that of etcd; `none`
-- is the nil error, and an error is a constructor with what its message prints. The DDNS API that
-- `RemovePeer` calls is a parameter, `none` if no endpoint is configured: the call may change etcd.
pub mod Added
pub mod Committed
pub mod Removed
pub mod Slashes
use valon.Prelude.{
  Bool, true, false, ◌||◌, Option, none, some, List, [], ◌∷◌, Bytes, codes, Result, ok, err,
  if◌then◌else◌, ◌≟◌,
}
use valon.Text.{has_suffix, contains}
use valon.Text.Path.{path_join}
use valon.Etcd.{Etcd, KeyValue}

-- the fields that `AddPeer` reads
pub record PeerInfo : Type 0 where
  pub pubkey : Bytes
  pub ip : Bytes
  pub alias : Bytes

abbrev pub etcd_key_prefix : Bytes
etcd_key_prefix = codes "/valon"

abbrev pub peer_path : Bytes → Bytes
peer_path pubkey = path_join (etcd_key_prefix ∷ codes "peers" ∷ pubkey ∷ [])

abbrev pub alias_path : Bytes → Bytes
alias_path alias = path_join (etcd_key_prefix ∷ codes "aliases" ∷ alias ∷ [])

pub data AddError : Type 0 where
  pubkey_required ip_required alias_required add_failed : AddError
  alias_exists : Bytes → AddError

abbrev pub add_result : Bytes → Option Bool → Option AddError
add_result alias none = some add_failed
add_result alias (some true) = none
add_result alias (some false) = some (alias_exists alias)

abbrev pub added_keys : PeerInfo → List KeyValue
added_keys peer =
    (path_join (peer_path peer.pubkey ∷ codes "wg_ip" ∷ []), peer.ip)
    ∷ (path_join (peer_path peer.pubkey ∷ codes "alias" ∷ []), peer.alias)
    ∷ (alias_path peer.alias, peer.pubkey)
    ∷ []

pub data RemoveError : Type 0 where
  get_alias_failed peer_not_found get_pubkey_failed delete_peer_failed delete_alias_failed :
      RemoveError
  alias_not_found : Bytes → RemoveError

abbrev pub looks_like_pubkey : Bytes → Bool
looks_like_pubkey s = contains s (codes "+") || contains s (codes "/") || has_suffix s (codes "=")

-- the pubkey and the alias, from what etcd answers to one of them
found_alias : Bytes → Option (List KeyValue) → Result RemoveError (Bytes × Bytes)
found_alias pubkey none = err get_alias_failed
found_alias pubkey (some []) = err peer_not_found
found_alias pubkey (some ((k, alias) ∷ kvs)) = ok (pubkey, alias)

found_pubkey : Bytes → Option (List KeyValue) → Result RemoveError (Bytes × Bytes)
found_pubkey alias none = err get_pubkey_failed
found_pubkey alias (some []) = err (alias_not_found alias)
found_pubkey alias (some ((k, pubkey) ∷ kvs)) = ok (pubkey, alias)

module _ {S : Type 0} (e : Etcd S) where
  unfoldable pub add_peer : PeerInfo → S → Option AddError × S
  add_peer peer s =
      if peer.pubkey ≟ []
      then (some pubkey_required, s)
      else if peer.ip ≟ []
      then (some ip_required, s)
      else if peer.alias ≟ []
      then (some alias_required, s)
      else let (r, s') = e.txn s (alias_path peer.alias ∷ []) (added_keys peer) in
        (add_result peer.alias r, s')

  -- the first half of `RemovePeer`
  unfoldable pub identify : Bytes → S → Result RemoveError (Bytes × Bytes) × S
  unfolding found_alias found_pubkey
  identify pubkey_or_alias s =
      if looks_like_pubkey pubkey_or_alias
      then (let (r, s') = e.get s (path_join (peer_path pubkey_or_alias ∷ codes "alias" ∷ [])) in
          (found_alias pubkey_or_alias r, s'))
      else let (r, s') = e.get s (alias_path pubkey_or_alias) in
        (found_pubkey pubkey_or_alias r, s')

  -- an error of the call is only logged
  unfoldable pub call_ddns : Option (Bytes → S → Bool × S) → Bytes → S → S
  call_ddns none pubkey s = s
  call_ddns (some call_ddns_delete) pubkey s = (call_ddns_delete pubkey s).1

  delete_alias : Bytes → Bool × S → Option RemoveError × S
  delete_alias alias (false, s) = (some delete_peer_failed, s)
  delete_alias alias (true, s) =
      let (done, s') = e.delete s (alias_path alias) in
      (if done then none else some delete_alias_failed, s')

  -- the second half
  unfoldable pub delete_keys :
      Option (Bytes → S → Bool × S) → Bytes → Bytes → S → Option RemoveError × S
  unfolding call_ddns delete_alias
  delete_keys ddns pubkey alias s =
      delete_alias alias (e.delete_prefix (call_ddns ddns pubkey s) (peer_path pubkey))

  after_identify :
      Option (Bytes → S → Bool × S)
      → Result RemoveError (Bytes × Bytes) × S
      → Option RemoveError × S
  unfolding delete_keys
  after_identify ddns (err x, s) = (some x, s)
  after_identify ddns (ok (pubkey, alias), s) = delete_keys ddns pubkey alias s

  unfoldable pub remove_peer : Option (Bytes → S → Bool × S) → Bytes → S → Option RemoveError × S
  unfolding identify after_identify
  remove_peer ddns pubkey_or_alias s = after_identify ddns (identify pubkey_or_alias s)
