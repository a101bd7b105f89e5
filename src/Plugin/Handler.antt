-- ===== src/Plugin/Handler.antt =====
-- coredns-plugin/valon/handler.go. A handler returns what it wrote and the state of etcd, which
-- only the look-up of an alias may change. Log lines are left out.
pub mod Reply
pub mod Lookup
pub mod Services
pub mod Discovery
pub mod Alias
pub mod Absent
use valon.Prelude.{
  ℕ, Bool, true, false, not, ◌||◌, Option, none, some, List, [], ◌∷◌, ◌++◌, Bytes, codes,
  if◌then◌else◌, ◌==◌, ◌≟◌,
}
use valon.Text.{Unicode, has_prefix, has_suffix, trim_prefix, trim_suffix, trim_space}
use valon.Net.HostPort.{split_host_port}
use valon.Net.Addr.{parse_ip, to4}
use valon.Net.Number.{atoi_uint16}
use valon.Etcd.{Etcd, KeyValue}
use valon.Etcd.Keys.{alias_key}
use valon.Plugin.Encoding.{dns_label_to_pubkey, pubkey_to_dns_label}
use valon.Plugin.Cache
use valon.Plugin.Cache.{PeerInfo, PeerCache}
use valon.Plugin.World.{World, Config}
use valon.Plugin.Message.{
  ResourceRecord, a, srv, cname, Msg, Query, Served, wrote, passed_on, reply, type_a, type_srv,
  rcode_success, rcode_name_error,
}

abbrev pub default_ttl : ℕ
default_ttl = 2

unfoldable pub nxdomain : Served
nxdomain =
    wrote (record { rcode = rcode_name_error; authoritative = true; answer = []; extra = [] })
      rcode_name_error

abbrev succeed : Msg → Served
succeed m = wrote m rcode_success

-- the name of the query in front of the zone
unfoldable pub relative_name : Bytes → Bytes → Bytes
relative_name name zone = trim_suffix (trim_suffix name zone) (codes ".")

-- what the name of an A query asks for
pub data Target : Type 0 where
  direct lan nated : Bytes → Target

unfoldable pub read_target : Bytes → Target
read_target name =
    if has_prefix name (codes "lan.")
    then lan (trim_prefix name (codes "lan."))
    else if has_prefix name (codes "nated.")
    then nated (trim_prefix name (codes "nated."))
    else direct name

abbrev pub label_of : Target → Bytes
label_of (direct l) = l
label_of (lan l) = l
label_of (nated l) = l

-- the IP of an endpoint "IP:PORT"
unfoldable pub endpoint_ip : Bytes → Option Bytes
endpoint_ip value =
    if value ≟ []
    then none
    else elim (split_host_port value) [ none ↦ none | some (host, port) ↦ parse_ip host ]

unfoldable pub overlay_ip : Bytes → Option Bytes
overlay_ip value = if value ≟ [] then none else parse_ip value

unfoldable pub target_ip : Target → PeerInfo → Option Bytes
unfolding endpoint_ip overlay_ip
target_ip (direct l) p = overlay_ip p.wg_ip
target_ip (lan l) p = endpoint_ip p.lan_endpoint
target_ip (nated l) p = endpoint_ip p.nat_endpoint

abbrev pub a_record : Bytes → Bytes → ResourceRecord
a_record name ip = a name default_ttl (to4 ip)

abbrev pub a_if : Bytes → Option Bytes → List ResourceRecord
a_if name none = []
a_if name (some ip) = a_record name ip ∷ []

answer_ip : Bytes → Option Bytes → Served
answer_ip name none = nxdomain
answer_ip name (some ip) = succeed (reply (a_record name ip ∷ []) [])

-- behind the decoding of the label
unfoldable pub answer_a : Bytes → Target → Option PeerInfo → Served
unfolding answer_ip nxdomain target_ip
answer_a name target none = nxdomain
answer_a name target (some p) = answer_ip name (target_ip target p)

-- strings.TrimSpace of the stored key, and its label, empty on failure
alias_label : Unicode → Option (List KeyValue) → Bytes
alias_label u none = []
alias_label u (some []) = []
alias_label u (some ((k, value) ∷ kvs)) = elim (pubkey_to_dns_label u (trim_space u value)) [
  | none ↦ []
  | some label ↦ label
]

peer_overlay_ip : Option PeerInfo → Option Bytes
peer_overlay_ip none = none
peer_overlay_ip (some p) = overlay_ip p.wg_ip

-- The A record of the target follows the CNAME if the target is known.
unfoldable pub return_cname : Unicode → Config → PeerCache → Query → Bytes → Served
unfolding peer_overlay_ip overlay_ip
return_cname u v cache q label =
    let target = label ++ (codes "." ++ v.zone) in
    let alias_record = cname q.name default_ttl target in
    elim (dns_label_to_pubkey u label) [
      | none ↦ succeed (reply (alias_record ∷ []) [])
      | some pubkey ↦
          succeed (reply (alias_record ∷ a_if target (peer_overlay_ip (Cache.get cache pubkey))) [])
    ]

abbrev pub is_endpoint : Target → Bool
is_endpoint (direct l) = false
is_endpoint (lan l) = true
is_endpoint (nated l) = true

module _ {S : Type 0} (e : Etcd S) (u : Unicode) (v : Config) where
  unfoldable pub lookup_alias : Bytes → S → Bytes × S
  unfolding alias_label
  lookup_alias alias s = let (r, s') = e.get s (alias_key alias) in (alias_label u r, s')

  unfoldable pub or_cname : PeerCache → Query → Bytes × S → Served × S
  unfolding nxdomain
  or_cname cache q (label, s) = (if label ≟ [] then nxdomain else return_cname u v cache q label, s)

  unfoldable pub handle_a_target : Query → Target → World S → Served × S
  unfolding or_cname nxdomain
  handle_a_target q target w = elim (dns_label_to_pubkey u (label_of target)) [
    | some pubkey ↦ (answer_a q.name target (Cache.get w.cache pubkey), w.etcd)
    | none ↦
        if is_endpoint target
        then (nxdomain, w.etcd)
        else or_cname w.cache q (lookup_alias (label_of target) w.etcd)
  ]

  unfoldable pub handle_a : Query → World S → Served × S
  unfolding handle_a_target
  handle_a q w = handle_a_target q (read_target (relative_name q.name v.zone)) w

-- the SRV record of an endpoint, and the A record of its target
srv_parts : Bytes → Bytes → ℕ → Option (Bytes × Bytes) → List ResourceRecord × List ResourceRecord
srv_parts name target priority none = ([], [])
srv_parts name target priority (some (host, port)) =
    (srv name default_ttl priority 0 (atoi_uint16 port) target ∷ [], a_if target (parse_ip host))

unfoldable pub endpoint_records :
    Bytes → Bytes → ℕ → Bytes → List ResourceRecord × List ResourceRecord
unfolding srv_parts
endpoint_records name target priority endpoint =
    if endpoint ≟ [] then ([], []) else srv_parts name target priority (split_host_port endpoint)

unless_empty : List ResourceRecord → List ResourceRecord → Served
unfolding nxdomain
unless_empty [] extra = nxdomain
unless_empty (r ∷ rs) extra = succeed (reply (r ∷ rs) extra)

unfoldable pub answer_srv : Config → Bytes → Bytes → Option PeerInfo → Served
unfolding nxdomain unless_empty endpoint_records
answer_srv v name label none = nxdomain
answer_srv v name label (some p) =
    let target = label ++ (codes "." ++ v.zone) in
    let (lan_srv, lan_a) = endpoint_records name (codes "lan." ++ target) 0 p.lan_endpoint in
    let (nat_srv, nat_a) = endpoint_records name (codes "nated." ++ target) 10 p.nat_endpoint in
    unless_empty (lan_srv ++ nat_srv) (lan_a ++ nat_a)

-- the body of the loop of `handleServiceDiscovery`; a key with no label is skipped
service_records :
    Config → Bytes → PeerInfo → Option Bytes → List ResourceRecord × List ResourceRecord
unfolding overlay_ip
service_records v name p none = ([], [])
service_records v name p (some label) =
    let target = label ++ (codes "." ++ v.zone) in
    (srv name default_ttl 0 0 0 target ∷ [], a_if target (overlay_ip p.wg_ip))

module _ (u : Unicode) (v : Config) where
  unfoldable pub service_loop :
      Bytes → List (Bytes × PeerInfo) → List ResourceRecord × List ResourceRecord
  unfolding service_records
  service_loop name [] = ([], [])
  service_loop name ((k, p) ∷ entries) =
      let (answer, extra) = service_records v name p (pubkey_to_dns_label u p.pub_key) in
      let (answers, extras) = service_loop name entries in (answer ++ answers, extra ++ extras)

  -- `entries` is what the range over the copy of the cache yields, in the order of the run.
  unfoldable pub handle_service_discovery : Bytes → List (Bytes × PeerInfo) → Served
  unfolding nxdomain service_loop
  handle_service_discovery name [] = nxdomain
  handle_service_discovery name (entry ∷ entries) =
      let (answer, extra) = service_loop name (entry ∷ entries) in succeed (reply answer extra)

  unfoldable pub handle_srv : Query → PeerCache → List (Bytes × PeerInfo) → Served
  unfolding nxdomain answer_srv handle_service_discovery
  handle_srv q cache entries =
      let name = relative_name q.name v.zone in
      if name ≟ codes "_valon._tcp"
      then handle_service_discovery q.name entries
      else if not (has_prefix name (codes "_wireguard._udp."))
      then nxdomain
      else let label = trim_prefix name (codes "_wireguard._udp.") in
        elim (dns_label_to_pubkey u label) [
          | none ↦ nxdomain
          | some pubkey ↦ answer_srv v q.name label (Cache.get cache pubkey)
        ]

-- `ServeDNS`
unfoldable pub serve_dns :
    {S : Type 0}
    → Etcd S
    → Unicode
    → Config
    → Query
    → List (Bytes × PeerInfo)
    → World S
    → Served × S
unfolding nxdomain handle_a handle_srv
serve_dns e u v q entries w =
    if not (has_suffix q.name v.zone)
    then (passed_on, w.etcd)
    else if q.qtype == type_a
    then handle_a e u v q w
    else if q.qtype == type_srv
    then (handle_srv u v q w.cache entries, w.etcd)
    else (nxdomain, w.etcd)
