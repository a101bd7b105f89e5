-- ===== src/Plugin/Start.antt =====
-- The start of the plugin (coredns-plugin/valon/valon.go): Init with registerSelf and
-- restoreWireGuardPeers. Outside of the program are etcd, WireGuard and the interfaces of the host;
-- `S` and `T` are the states of the first two. `now` is what time.Now() returns in the calls of the
-- cache. The slice of a key in a log line is within the 44 bytes of a key that could be decoded.
pub mod Restored
pub mod Complete
pub mod Started
use valon.Prelude.{
  ℕ, Bool, true, false, Option, none, some, List, [], ◌∷◌, ◌++◌, map, Bytes, codes, length,
  if◌then◌else◌, ◌==◌, ◌≟◌,
}
use valon.Net.Addr.{to4}
use valon.Net.Cidr.{IpNet, parse_cidr}
use valon.Net.IpText.{ip_string}
use valon.Base64
use valon.Etcd.{Etcd}
use valon.Wireguard.{Wgctrl, Device, PeerConfig, has_bytes}
use valon.Plugin.Cache
use valon.Plugin.Cache.{PeerInfo, PeerCache, new_peer_cache}
use valon.Plugin.World.{World}
use valon.Plugin.Load.{load_from_etcd}

-- What `net.InterfaceByName` and `Addrs` give: an interface, or none of the name, and its addresses,
-- each an `*net.IPNet`, of which the IP is kept, or of another type.
abbrev pub Host : Type 0
Host = Bytes → Option (Option (List (Option Bytes)))

-- the state that the plugin shares, with the interfaces
pub record Node (S : Type 0) (T : Type 0) : Type 0 where
  pub world : World S
  pub wireguard : T
  pub self_wg_ip : Bytes

unfoldable pub first_ipv4 : List (Option Bytes) → Option Bytes
first_ipv4 [] = none
first_ipv4 (none ∷ addrs) = first_ipv4 addrs
first_ipv4 (some ip ∷ addrs) = elim (to4 ip) [
  | none ↦ first_ipv4 addrs
  | some ip4 ↦ some (ip_string ip)
]

unfoldable pub get_own_wireguard_ip : Host → Bytes → Option Bytes
unfolding first_ipv4
get_own_wireguard_ip host wg_interface = elim (host wg_interface) [
  | none ↦ none
  | some none ↦ none
  | some (some addrs) ↦ first_ipv4 addrs
]

pub data SelfError : Type 0 where
  not_configured interface_not_found public_key_failed wg_ip_failed : SelfError

-- the peer that stands for the node itself
abbrev pub self_info : Bytes → Bytes → ℕ → PeerInfo
self_info pubkey wg_ip now = record {
  pub_key = pubkey;
  wg_ip = wg_ip;
  lan_endpoint = [];
  nat_endpoint = [];
  last_handshake = 0;
  updated_at = now;
  dirty = true;
}

-- the configuration for a peer that is restored, if its address and key can be read
unfoldable pub restored_config : Bytes → Bytes → Option PeerConfig
restored_config wg_ip pub_key = elim (parse_cidr (wg_ip ++ codes "/32")) [
  | none ↦ none
  | some (ip, ip_net) ↦ elim (Base64.decode pub_key) [
    | none ↦ none
    | some bytes ↦
        if length bytes == 32
        then some (record {
          public_key = bytes;
          remove = false;
          replace_allowed_ips = false;
          allowed_ips = ip_net ∷ [];
        })
        else none
  ]
]

module _ {T : Type 0} (wg : Wgctrl T) where
  -- `wgctrl.New` and then `Device`
  open_device : Bytes → Bool × T → Option Device × T
  open_device wg_interface (false, t) = (none, t)
  open_device wg_interface (true, t) = wg.device t wg_interface

  unfoldable pub get_own_public_key : Bytes → T → Option Bytes × T
  unfolding open_device
  get_own_public_key wg_interface t =
      let (device, t') = open_device wg_interface (wg.connect t) in
      (elim device [ none ↦ none | some d ↦ some (Base64.encode d.public_key) ], t')

  -- the body of the loop; an error of the call is only logged
  unfoldable pub restore_peer : Bytes → List Bytes → PeerInfo → T → T
  unfolding has_bytes restored_config
  restore_peer wg_interface existing peer t =
      if has_bytes existing peer.pub_key
      then t
      else elim (restored_config peer.wg_ip peer.pub_key) [
        | none ↦ t
        | some config ↦ (wg.configure_device t wg_interface config).1
      ]

  unfoldable pub restore_peers : Bytes → List Bytes → List (Bytes × PeerInfo) → T → T
  unfolding restore_peer
  restore_peers wg_interface existing [] t = t
  restore_peers wg_interface existing ((pubkey, peer) ∷ peers) t =
      restore_peers wg_interface existing peers (restore_peer wg_interface existing peer t)

  restore_into : Bytes → List (Bytes × PeerInfo) → Option Device × T → Bool × T
  unfolding restore_peers
  restore_into wg_interface peers (none, t) = (false, t)
  restore_into wg_interface peers (some d, t) =
      (true, restore_peers wg_interface (map Base64.encode d.peers) peers t)

  -- true for the nil error; `peers` is what the range over `GetAll` yields
  unfoldable pub restore_wireguard_peers : Bytes → List (Bytes × PeerInfo) → T → Bool × T
  unfolding restore_into open_device
  restore_wireguard_peers wg_interface [] t = (true, t)
  restore_wireguard_peers wg_interface (peer ∷ peers) t =
      restore_into wg_interface (peer ∷ peers) (open_device wg_interface (wg.connect t))

  registered_self :
      {S : Type 0} → Host → Bytes → ℕ → Node S T → Option Bytes × T → Option SelfError × Node S T
  registered_self host wg_interface now n (none, t) =
      (some public_key_failed, record n { wireguard = t })
  registered_self host wg_interface now n (some pubkey, t) =
      elim (get_own_wireguard_ip host wg_interface) [
        | none ↦ (some wg_ip_failed, record n { wireguard = t })
        | some wg_ip ↦ (
          none,
          record {
            world = record {
              cache = Cache.set n.world.cache pubkey (self_info pubkey wg_ip now) now;
              etcd = n.world.etcd;
            };
            wireguard = t;
            self_wg_ip = wg_ip;
          },
        )
      ]

  unfoldable pub register_self :
      {S : Type 0} → Host → Bytes → ℕ → Node S T → Option SelfError × Node S T
  unfolding registered_self
  register_self host wg_interface now n =
      if wg_interface ≟ [] then (some not_configured, n) else elim (host wg_interface) [
        | none ↦ (some interface_not_found, n)
        | some addrs ↦
            registered_self host wg_interface now n (get_own_public_key wg_interface n.wireguard)
      ]

  module _ {S : Type 0} (e : Etcd S) where
    -- Init as far as the state goes, with a client that could be made. The test of the connection
    -- and the errors of the load and of the restoration are only logged.
    unfoldable pub init :
        Host
        → Bytes
        → ℕ
        → (PeerCache → List (Bytes × PeerInfo))
        → S
        → T
        → Option SelfError × Node S T
    unfolding register_self restore_wireguard_peers
    init host wg_interface now get_all s t =
        let tested = (e.get s (codes "/valon/health")).1 in
        let loaded = (load_from_etcd e now (record { cache = new_peer_cache; etcd = tested })).1 in
        let restored = (restore_wireguard_peers wg_interface (get_all loaded.cache) t).1 in
        register_self host wg_interface now
          (record { world = loaded; wireguard = restored; self_wg_ip = [] })
