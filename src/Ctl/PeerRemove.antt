-- ===== src/Ctl/PeerRemove.antt =====
-- valonctl/cmd/peer_remove.go, runPeerRemove. The state is that of etcd and that of WireGuard.
-- Whether a client of etcd could be made is an argument, and so is the order in which ListPeers
-- returns the peers. What is printed is left out.
pub mod Removes
use valon.Prelude.{
  ℕ, Bool, true, false, ◌||◌, Option, none, some, List, [], ◌∷◌, Bytes, if◌then◌else◌, ◌≟◌,
}
use valon.Etcd.{Etcd}
use valon.Wireguard.{Wgctrl}
use valon.Ctl.EtcdClient
use valon.Ctl.EtcdClient.{RemoveError}
use valon.Ctl.WireguardClient
use valon.Ctl.PeerAdd.{Outside}
use valon.Ctl.PeerList.{ListedPeer, PeerEntries, list_peers}

pub data PeerRemoveError : Type 0 where
  etcd_client_failed list_failed peer_not_found wireguard_client_failed : PeerRemoveError
  remove_failed : RemoveError → PeerRemoveError

-- the key of the first peer that has the text as its key or its alias, or the empty text
unfoldable pub target_pubkey : PeerEntries → Bytes → Bytes
target_pubkey [] arg = []
target_pubkey ((k, p) ∷ peers) arg =
    if p.pubkey ≟ arg || p.alias ≟ arg then p.pubkey else target_pubkey peers arg

module _ {S T : Type 0} (e : Etcd S) (wg : Wgctrl T) (parse_time : Bytes → Option ℕ)
    (in_order : PeerEntries → PeerEntries) (ddns : Option (Bytes → S → Bool × S))
    (wg_interface arg : Bytes) where
  removed : Option RemoveError × S → T → Option PeerRemoveError × Outside S T
  removed (none, s) t = (none, record { etcd = s; wireguard = t })
  removed (some x, s) t = (some (remove_failed x), record { etcd = s; wireguard = t })

  -- an error of WireGuard's removal is only printed
  with_wireguard : Bytes → S → Bool × T → Option PeerRemoveError × Outside S T
  unfolding removed
  with_wireguard target s (false, t) =
      (some wireguard_client_failed, record { etcd = s; wireguard = t })
  with_wireguard target s (true, t) =
      removed (EtcdClient.remove_peer e ddns arg s)
        (WireguardClient.remove_peer wg wg_interface target t).1

  with_peers : T → Option PeerEntries × S → Option PeerRemoveError × Outside S T
  unfolding with_wireguard
  with_peers t (none, s) = (some list_failed, record { etcd = s; wireguard = t })
  with_peers t (some peers, s) =
      let target = target_pubkey (in_order peers) arg in
      if target ≟ []
      then (some peer_not_found, record { etcd = s; wireguard = t })
      else with_wireguard target s (wg.connect t)

  unfoldable pub run_peer_remove : Bool → Outside S T → Option PeerRemoveError × Outside S T
  unfolding with_peers
  run_peer_remove etcd_client o =
      if etcd_client
      then with_peers o.wireguard (list_peers parse_time e o.etcd)
      else (some etcd_client_failed, o)
