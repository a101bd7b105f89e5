-- ===== src/Wireguard.antt =====
-- The client of WireGuard, golang.zx2c4.com/wireguard/wgctrl, which is not part of the repository.
-- Its operations are a parameter of the development; `IsWgctrl` states what its documentation says
-- of the peers of an interface. `T` is the state of the interfaces, and any call may fail. Allowed
-- addresses are not part of the laws, since WireGuard moves an address from one peer to another.
use valon.Prelude.{
  Bool, true, not, ◌||◌, ◌≡◌, Option, some, List, [], ◌∷◌, Bytes, All, if◌then◌else◌, ◌&&◌, false,
  ◌≟◌,
}
use valon.Base32.RoundTrip.{IsByte}
use valon.Net.Cidr.{IpNet}

-- the public keys that are read: of the device and of its peers
pub record Device : Type 0 where
  pub public_key : Bytes
  pub peers : List Bytes

pub record PeerConfig : Type 0 where
  pub public_key : Bytes
  pub remove : Bool
  pub replace_allowed_ips : Bool
  pub allowed_ips : List IpNet

-- `connect` is wgctrl.New. The text is the name of the interface. A configuration has one peer.
pub record Wgctrl (T : Type 0) : Type 0 where
  pub connect : T → Bool × T
  pub device : T → Bytes → Option Device × T
  pub configure_device : T → Bytes → PeerConfig → Bool × T

unfoldable pub has_bytes : List Bytes → Bytes → Bool
has_bytes [] k = false
has_bytes (x ∷ xs) k = x ≟ k || has_bytes xs k

pub record IsWgctrl {T : Type 0} (wg : Wgctrl T) : Type 0 where
  pub has_peer : T → Bytes → Bytes → Bool
  pub connect_reads : (t : T) → has_peer (wg.connect t).1 ≡ has_peer t
  pub device_reads : (t : T) (i : Bytes) → has_peer (wg.device t i).1 ≡ has_peer t
  pub device_returns :
      (t : T) (i : Bytes) (d : Device)
      → (wg.device t i).0 ≡ some d
      → (k : Bytes) → has_bytes d.peers k ≡ has_peer t i k
  pub device_keys :
      (t : T) (i : Bytes) (d : Device) → (wg.device t i).0 ≡ some d → All (All IsByte) d.peers
  pub configure_fails :
      (t : T) (i : Bytes) (c : PeerConfig)
      → (wg.configure_device t i c).0 ≡ false
      → has_peer (wg.configure_device t i c).1 ≡ has_peer t
  pub configure_changes :
      (t : T) (i : Bytes) (c : PeerConfig)
      → (wg.configure_device t i c).0 ≡ true
      → (j k : Bytes)
      → has_peer (wg.configure_device t i c).1 j k
        ≡ (if i ≟ j && c.public_key ≟ k then not c.remove else has_peer t j k)
