-- ===== src/Plugin/Monitor.antt =====
-- coredns-plugin/valon/wg_monitor.go: one poll of the WireGuard interface. wgctrl is not part of
-- the repository: a poll takes the peers of the device, or `none` if it could not be read. Log
-- lines are left out; the slices in them are within the 44 bytes of a key. `now` is what time.Now()
-- returns in the poll.
pub mod Observed
pub mod Valid
pub mod Marked
use valon.Prelude.{
  ℕ, Bool, true, false, not, ◌&&◌, Option, none, some, List, [], ◌∷◌, ◌++◌, Bytes, codes,
  if◌then◌else◌, ◌≟◌,
}
use valon.Text.{has_suffix}
use valon.Net.Addr.{to4}
use valon.Net.Dotted.{dotted}
use valon.Base64
use valon.Etcd.{Etcd, KeyValue}
use valon.Plugin.Cache
use valon.Plugin.Cache.{PeerInfo}
use valon.Plugin.World.{World}

-- The fields of wgtypes.Peer that are read. The endpoint is in the form of `UDPAddr.String`.
pub record WgPeer : Type 0 where
  pub public_key : Bytes
  pub endpoint : Option Bytes
  pub allowed_ips : List Bytes
  pub last_handshake_time : ℕ

-- the first IPv4 address
unfoldable pub extract_wg_ip : List Bytes → Bytes
extract_wg_ip [] = []
extract_wg_ip (ip ∷ ips) = elim (to4 ip) [ none ↦ extract_wg_ip ips | some ip4 ↦ dotted ip4 ]

-- the body of the loop of `loadPeerFromEtcd`
unfoldable pub load_field : PeerInfo → KeyValue → PeerInfo
load_field p (key, value) =
    if has_suffix key (codes "/wg_ip")
    then record p { wg_ip = value }
    else if has_suffix key (codes "/endpoints/lan")
    then record p { lan_endpoint = value }
    else if has_suffix key (codes "/endpoints/nated")
    then record p { nat_endpoint = value }
    else p

unfoldable pub load_fields : PeerInfo → List KeyValue → PeerInfo
unfolding load_field
load_fields p [] = p
load_fields p (kv ∷ kvs) = load_fields (load_field p kv) kvs

unfoldable pub peer_prefix : Bytes → Bytes
peer_prefix pubkey = codes "/valon/peers/" ++ (pubkey ++ codes "/")

-- a peer with nothing but a key and an address
abbrev pub bare_peer : Bytes → Bytes → PeerInfo
bare_peer pubkey wg_ip = record {
  pub_key = pubkey;
  wg_ip = wg_ip;
  lan_endpoint = [];
  nat_endpoint = [];
  last_handshake = 0;
  updated_at = 0;
  dirty = false;
}

-- the function that `processPeer` gives to `cache.Update`
unfoldable pub observe : WgPeer → Bytes → Bytes → Bytes → ℕ → PeerInfo → PeerInfo
observe peer pubkey wg_ip endpoint now p =
    let seen = record p {
      pub_key = pubkey;
      wg_ip = if not (wg_ip ≟ []) then wg_ip else p.wg_ip;
      last_handshake = peer.last_handshake_time;
      updated_at = now;
    } in
    if not (endpoint ≟ []) && not (p.nat_endpoint ≟ endpoint)
    then record seen { nat_endpoint = endpoint; dirty = true }
    else seen

abbrev pub endpoint_of : WgPeer → Bytes
endpoint_of peer = elim peer.endpoint [ none ↦ [] | some endpoint ↦ endpoint ]

module _ {S : Type 0} (e : Etcd S) where
  loaded : Bytes → Bytes → ℕ → World S → Option (List KeyValue) × S → Bool × World S
  unfolding load_fields
  loaded pubkey wg_ip now w (none, s) = (false, record w { etcd = s })
  loaded pubkey wg_ip now w (some [], s) = (false, record w { etcd = s })
  loaded pubkey wg_ip now w (some (kv ∷ kvs), s) = (
    true,
    record {
      cache = Cache.set w.cache pubkey (load_fields (bare_peer pubkey wg_ip) (kv ∷ kvs)) now;
      etcd = s;
    },
  )

  unfoldable pub load_peer_from_etcd : Bytes → Bytes → ℕ → World S → Bool × World S
  unfolding loaded peer_prefix
  load_peer_from_etcd pubkey wg_ip now w =
      loaded pubkey wg_ip now w (e.get_prefix w.etcd (peer_prefix pubkey))

  -- `cache.Update` at the end of `processPeer`
  unfoldable pub observed : WgPeer → Bytes → Bytes → ℕ → World S → World S
  observed peer pubkey wg_ip now w = record w {
    cache = Cache.update w.cache pubkey (observe peer pubkey wg_ip (endpoint_of peer) now) now;
  }

  after_load : WgPeer → Bytes → Bytes → ℕ → Bool × World S → World S
  unfolding observed
  after_load peer pubkey wg_ip now (true, w) = observed peer pubkey wg_ip now w
  after_load peer pubkey wg_ip now (false, w) = w

  unfoldable pub process_peer : ℕ → WgPeer → World S → World S
  unfolding extract_wg_ip load_peer_from_etcd after_load observed
  process_peer now peer w =
      let pubkey = Base64.encode peer.public_key in
      let wg_ip = extract_wg_ip peer.allowed_ips in
      elim (Cache.get w.cache pubkey) [
        | some existing ↦ observed peer pubkey wg_ip now w
        | none ↦ after_load peer pubkey wg_ip now (load_peer_from_etcd pubkey wg_ip now w)
      ]

  process_peers : ℕ → List WgPeer → World S → World S
  unfolding process_peer
  process_peers now [] w = w
  process_peers now (peer ∷ peers) w = process_peers now peers (process_peer now peer w)

  unfoldable pub poll_wireguard : ℕ → Option (List WgPeer) → World S → World S
  unfolding process_peers
  poll_wireguard now none w = w
  poll_wireguard now (some peers) w = process_peers now peers w
