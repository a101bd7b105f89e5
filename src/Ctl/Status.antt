-- ===== src/Ctl/Status.antt =====
-- valonctl/cmd/status.go, and Ping of valonctl/pkg/client/ddns.go and etcd.go. The request over HTTP
-- is an argument: the status code of the reply, or `none`. A line of the output is a value.
use valon.Prelude.{ℕ, Bool, true, false, Option, none, some, Bytes, length, if◌then◌else◌, leb}
use valon.Text.{is_some}
use valon.Ctl.EtcdClient.{etcd_key_prefix}
use valon.Etcd.{Etcd}
use valon.Wireguard.{Wgctrl}
use valon.Ctl.WireguardClient.{is_interface_up, get_peer_count}
use valon.Ctl.PeerAdd.{Outside}
use valon.Ctl.PeerList.{PeerEntries, list_peers}

-- true for the nil error
unfoldable pub ddns_ping : Option ℕ → Bool
ddns_ping none = false
ddns_ping (some status_code) = if leb 500 status_code then false else true

-- no client, not there, or there with a number of peers
pub data Line : Type 0 where
  no_client down : Line
  up : ℕ → Line

abbrev or_zero : Option ℕ → ℕ
or_zero none = 0
or_zero (some n) = n

module _ {T : Type 0} (wg : Wgctrl T) where
  counted : Option ℕ × T → Line × T
  counted (n, t) = (up (or_zero n), t)

  up_line : Bytes → Bool × T → Line × T
  unfolding counted
  up_line wg_interface (false, t) = (down, t)
  up_line wg_interface (true, t) = counted (get_peer_count wg wg_interface t)

  wireguard_line : Bytes → Bool × T → Line × T
  unfolding up_line
  wireguard_line wg_interface (false, t) = (no_client, t)
  wireguard_line wg_interface (true, t) = up_line wg_interface (is_interface_up wg wg_interface t)

module _ {S : Type 0} (e : Etcd S) (parse_time : Bytes → Option ℕ) where
  unfoldable pub etcd_ping : S → Bool × S
  etcd_ping s = let (r, s') = e.get s etcd_key_prefix in (is_some r, s')

  abbrev peer_number : Option PeerEntries → ℕ
  peer_number none = 0
  peer_number (some peers) = length peers

  listed_line : Option PeerEntries × S → Line × S
  listed_line (peers, s) = (up (peer_number peers), s)

  pinged_line : Bool × S → Line × S
  unfolding listed_line
  pinged_line (false, s) = (down, s)
  pinged_line (true, s) = listed_line (list_peers parse_time e s)

  etcd_line : Bool → S → Line × S
  unfolding pinged_line etcd_ping
  etcd_line etcd_client s = if etcd_client then pinged_line (etcd_ping s) else (no_client, s)

-- the lines of WireGuard and etcd, and whether the DDNS API can be reached
unfoldable pub run_status :
    {S T : Type 0} (e : Etcd S) (wg : Wgctrl T) (parse_time : Bytes → Option ℕ)
    → Bytes
    → Bool
    → Option ℕ
    → Outside S T
    → (Line × (Line × Bool)) × Outside S T
unfolding wireguard_line etcd_line ddns_ping
run_status e wg parse_time wg_interface etcd_client status_code o =
    let (first, t) = wireguard_line wg wg_interface (wg.connect o.wireguard) in
    let (second, s) = etcd_line e parse_time etcd_client o.etcd in
    ((first, (second, ddns_ping status_code)), record { etcd = s; wireguard = t })
