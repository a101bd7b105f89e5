-- ===== src/Ctl/Allocation.antt =====
-- valonctl/pkg/client/etcd.go, AllocateIP and getAllUsedIPs. The loop runs on fuel; an IPv4 network
-- of at least one bit is searched with as many rounds as there are addresses, and one more. The set
-- of used addresses is the list of its members.
pub mod Loop
pub mod Used
pub mod Answer
pub mod Found
pub mod Ends
pub mod Taken
use valon.Prelude.{
  ℕ, zero, suc, ◌+◌, ◌≡◌, refl, Bool, true, false, not, ◌&&◌, ◌||◌, Option, none, some, List, [],
  ◌∷◌, Bytes, codes, if◌then◌else◌, ◌≟◌,
}
use valon.Text.{has_suffix}
use valon.Text.Path.{path_join}
use valon.Net.Cidr
use valon.Net.Cidr.{IpNet, parse_cidr, equal}
use valon.Net.IpText.{ip_string}
use valon.Etcd.{Etcd, KeyValue}
use valon.Ctl.EtcdClient.{etcd_key_prefix}
use valon.Ctl.Address.{increment_ip}

abbrev pub peers_path : Bytes
peers_path = path_join (etcd_key_prefix ∷ codes "peers" ∷ [])

unfoldable pub used_ips : List KeyValue → List Bytes
used_ips [] = []
used_ips ((key, value) ∷ kvs) =
    let rest = used_ips kvs in if has_suffix key (codes "/wg_ip") then value ∷ rest else rest

unfoldable pub is_used : List Bytes → Bytes → Bool
is_used [] ip = false
is_used (used ∷ rest) ip = used ≟ ip || is_used rest ip

-- neither the address of the network nor the last one, and not in use
abbrev pub is_free : IpNet → List Bytes → Bytes → Bool
is_free net used ip =
    not (equal ip net.ip || not (Cidr.contains net (increment_ip ip)))
    && not (is_used used (ip_string ip))

pub data Search : Type 0 where
  found : Bytes → Search
  exhausted out_of_fuel : Search

unfoldable pub search_ip : ℕ → IpNet → List Bytes → Bytes → Search
search_ip zero net used ip = out_of_fuel
search_ip (suc fuel) net used ip = elim (Cidr.contains net ip) [
  | false ↦ exhausted
  | true ↦ elim (is_free net used ip) [
    | true ↦ found (ip_string ip)
    | false ↦ search_ip fuel net used (increment_ip ip)
  ]
]

pub data AllocateError : Type 0 where
  invalid_network get_used_failed none_available no_fuel : AllocateError

abbrev search_result : Search → Option AllocateError × Bytes
search_result (found ip) = (none, ip)
search_result exhausted = (some none_available, [])
search_result out_of_fuel = (some no_fuel, [])

abbrev search_from : ℕ → IpNet → Option (List KeyValue) → Option AllocateError × Bytes
search_from fuel net none = (some get_used_failed, [])
search_from fuel net (some kvs) =
    search_result (search_ip fuel net (used_ips kvs) (increment_ip net.ip))

module _ {S : Type 0} (e : Etcd S) where
  -- an error, or the address
  unfoldable pub allocate_ip : ℕ → Bytes → S → (Option AllocateError × Bytes) × S
  unfolding search_ip used_ips
  allocate_ip fuel network_cidr s = elim (parse_cidr network_cidr) [
    | none ↦ ((some invalid_network, []), s)
    | some (ip, net) ↦ let (r, s') = e.get_prefix s peers_path in (search_from fuel net r, s')
  ]
