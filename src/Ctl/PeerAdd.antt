-- ===== src/Ctl/PeerAdd.antt =====
-- valonctl/cmd/peer_add.go, runPeerAdd. The state is that of etcd and that of WireGuard. Whether a
-- client of etcd could be made is an argument. `fuel` bounds the search for an address. What is
-- printed is left out, except for the values of the client's configuration.
pub mod Leaves
pub mod Registers
use valon.Prelude.{
  ℕ, Bool, true, false, Option, none, some, List, [], ◌∷◌, Bytes, codes, Result, ok, err,
  if◌then◌else◌, ◌≟◌,
}
use valon.Text.{Unicode}
use valon.Etcd.{Etcd}
use valon.Wireguard.{Wgctrl}
use valon.Ctl.Config.{Config}
use valon.Ctl.Validation.{AliasError, validate_alias}
use valon.Ctl.EtcdClient
use valon.Ctl.EtcdClient.{PeerInfo, AddError}
use valon.Ctl.Allocation.{AllocateError, allocate_ip}
use valon.Ctl.WireguardClient
use valon.Ctl.WireguardClient.{WireguardError}

pub record Outside (S : Type 0) (T : Type 0) : Type 0 where
  pub etcd : S
  pub wireguard : T

pub data PeerAddError : Type 0 where
  invalid_alias : AliasError → PeerAddError
  etcd_client_failed wireguard_client_failed : PeerAddError
  allocate_failed : AllocateError → PeerAddError
  wireguard_failed : WireguardError → PeerAddError
  register_failed : AddError → PeerAddError

-- the values in the configuration that is printed for the client
pub record ClientConfig : Type 0 where
  pub address : Bytes
  pub prefix : Bytes
  pub dns : Bytes
  pub dns_zone : Bytes
  pub public_key : Bytes
  pub endpoint : Bytes
  pub allowed_ip : Bytes

unfoldable pub client_config : Config → Bytes → Bytes → ClientConfig
client_config cfg client_ip discovery_pubkey = record {
  address = client_ip;
  prefix = codes "24";
  dns = cfg.ip;
  dns_zone = cfg.dns_zone;
  public_key = discovery_pubkey;
  endpoint = if cfg.endpoint ≟ [] then codes "<DISCOVERY_ROLE_LAN_IP:51820>" else cfg.endpoint;
  allowed_ip = cfg.ip;
}

abbrev pub Added : Type 0
Added = Bytes × Option ClientConfig

abbrev pub peer_info : Bytes → Bytes → Bytes → PeerInfo
peer_info pubkey ip alias = record { pubkey = pubkey; ip = ip; alias = alias }

module _ {S T : Type 0} (e : Etcd S) (wg : Wgctrl T) (u : Unicode) (cfg : Config) (fuel : ℕ)
    (pubkey alias : Bytes) where
  abbrev print_client_config :
      Bytes → Option Bytes × T → S → Result PeerAddError Added × Outside S T
  print_client_config wg_ip (none, t) s = (ok (wg_ip, none), record { etcd = s; wireguard = t })
  print_client_config wg_ip (some key, t) s =
      (ok (wg_ip, some (client_config cfg wg_ip key)), record { etcd = s; wireguard = t })

  -- with the rollback; its error is dropped
  registered : Bytes → T → Option AddError × S → Result PeerAddError Added × Outside S T
  registered wg_ip t (some x, s) = (
    err (register_failed x),
    record { etcd = s; wireguard = (WireguardClient.remove_peer wg cfg.wg_interface pubkey t).1 },
  )
  registered wg_ip t (none, s) =
      print_client_config wg_ip (WireguardClient.get_public_key wg cfg.wg_interface t) s

  in_wireguard : Bytes → S → Option WireguardError × T → Result PeerAddError Added × Outside S T
  unfolding registered
  in_wireguard wg_ip s (some x, t) = (err (wireguard_failed x), record { etcd = s; wireguard = t })
  in_wireguard wg_ip s (none, t) =
      registered wg_ip t (EtcdClient.add_peer e (peer_info pubkey wg_ip alias) s)

  with_client : Bytes → S → Bool × T → Result PeerAddError Added × Outside S T
  unfolding in_wireguard
  with_client wg_ip s (false, t) = (err wireguard_client_failed, record { etcd = s; wireguard = t })
  with_client wg_ip s (true, t) =
      in_wireguard wg_ip s (WireguardClient.add_peer wg cfg.wg_interface pubkey wg_ip t)

  with_ip : T → (Option AllocateError × Bytes) × S → Result PeerAddError Added × Outside S T
  unfolding with_client
  with_ip t ((some x, ip), s) = (err (allocate_failed x), record { etcd = s; wireguard = t })
  with_ip t ((none, ip), s) = with_client ip s (wg.connect t)

  -- the address of the flag, or one that is allocated
  abbrev chosen_ip : Bytes → S → (Option AllocateError × Bytes) × S
  chosen_ip wg_ip s = if wg_ip ≟ [] then allocate_ip e fuel cfg.network s else ((none, wg_ip), s)

  unfoldable pub run_peer_add : Bool → Bytes → Outside S T → Result PeerAddError Added × Outside S T
  unfolding with_ip
  run_peer_add etcd_client wg_ip o = elim (validate_alias u alias) [
    | some x ↦ (err (invalid_alias x), o)
    | none ↦
        if etcd_client
        then with_ip o.wireguard (chosen_ip wg_ip o.etcd)
        else (err etcd_client_failed, o)
  ]
