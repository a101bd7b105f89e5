-- ===== src/Ctl/WireguardClient.antt =====
-- valonctl/pkg/client/wireguard.go, over the client of WireGuard. `none` is the nil error.
pub mod Changes
use valon.Prelude.{
  ℕ, Bool, true, false, Option, none, some, [], ◌∷◌, ◌++◌, Bytes, codes, length, if◌then◌else◌,
  ◌==◌,
}
use valon.Base64
use valon.Net.Cidr.{IpNet, parse_cidr}
use valon.Wireguard.{Wgctrl, Device, PeerConfig}

pub data WireguardError : Type 0 where
  invalid_public_key invalid_ip_address add_failed remove_failed : WireguardError

-- wgtypes.ParseKey: the base64 text of 32 bytes
unfoldable pub parse_key : Bytes → Option Bytes
parse_key s = elim (Base64.decode s) [
  | none ↦ none
  | some key ↦ if length key == 32 then some key else none
]

abbrev pub added_config : Bytes → IpNet → PeerConfig
added_config key ip_net = record {
  public_key = key;
  remove = false;
  replace_allowed_ips = true;
  allowed_ips = ip_net ∷ [];
}

abbrev pub removed_config : Bytes → PeerConfig
removed_config key = record {
  public_key = key;
  remove = true;
  replace_allowed_ips = false;
  allowed_ips = [];
}

abbrev unless_done : {T : Type 0} → WireguardError → Bool × T → Option WireguardError × T
unless_done failed (true, t) = (none, t)
unless_done failed (false, t) = (some failed, t)

module _ {T : Type 0} (wg : Wgctrl T) where
  abbrev pub get_device : Bytes → T → Option Device × T
  get_device interface_name t = wg.device t interface_name

  unfoldable pub get_public_key : Bytes → T → Option Bytes × T
  get_public_key interface_name t =
      let (device, t') = wg.device t interface_name in
      (elim device [ none ↦ none | some d ↦ some (Base64.encode d.public_key) ], t')

  unfoldable pub add_peer : Bytes → Bytes → Bytes → T → Option WireguardError × T
  unfolding parse_key
  add_peer interface_name pubkey allowed_ip t = elim (parse_key pubkey) [
    | none ↦ (some invalid_public_key, t)
    | some key ↦ elim (parse_cidr (allowed_ip ++ codes "/32")) [
      | none ↦ (some invalid_ip_address, t)
      | some (ip, ip_net) ↦
          unless_done add_failed (wg.configure_device t interface_name (added_config key ip_net))
    ]
  ]

  unfoldable pub remove_peer : Bytes → Bytes → T → Option WireguardError × T
  unfolding parse_key
  remove_peer interface_name pubkey t = elim (parse_key pubkey) [
    | none ↦ (some invalid_public_key, t)
    | some key ↦
        unless_done remove_failed (wg.configure_device t interface_name (removed_config key))
  ]

  -- never an error
  unfoldable pub is_interface_up : Bytes → T → Bool × T
  is_interface_up interface_name t =
      let (device, t') = wg.device t interface_name in
      (elim device [ none ↦ false | some d ↦ true ], t')

  unfoldable pub get_peer_count : Bytes → T → Option ℕ × T
  get_peer_count interface_name t =
      let (device, t') = get_device interface_name t in
      (elim device [ none ↦ none | some d ↦ some (length d.peers) ], t')
