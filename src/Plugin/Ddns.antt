-- ===== src/Plugin/Ddns.antt =====
-- coredns-plugin/valon/ddns.go: the HTTP API. A request carries its body as the JSON decoder
-- leaves it, `none` for a decoding error. A handler returns its response and the new state. A slice
-- out of range in the arguments of a log line panics: the request has no response, and what was
-- written before stays.
pub mod Access
pub mod Update
pub mod Delete
pub mod Valid
pub mod Marked
pub mod Server
use valon.Prelude.{
  ℕ, zero, suc, ◌+◌, ◌-◌, Bool, true, false, not, ◌&&◌, ◌||◌, Option, none, some, List, [], ◌∷◌,
  ◌++◌, Bytes, codes, length, take, leb, ltb, if◌then◌else◌, ◌==◌, ◌≟◌,
}
use valon.Text.{Unicode, index_byte}
use valon.Net.HostPort.{split_host_port}
use valon.Etcd.{Etcd}
use valon.Etcd.Keys.{alias_key, peer_key, alias_field}
use valon.Plugin.Encoding.{pubkey_to_dns_label}
use valon.Plugin.Cache
use valon.Plugin.Cache.{PeerInfo, PeerCache}
use valon.Plugin.World.{World, Config}

pub record DdnsEndpointRequest : Type 0 where
  pub pub_key : Bytes
  pub lan_endpoint : Bytes
  pub alias : Bytes

pub record HttpRequest (Body : Type 0) : Type 0 where
  pub method : Bytes
  pub body : Option Body
  -- the X-Forwarded-For header, empty if there is none
  pub forwarded_for : Bytes
  pub remote_addr : Bytes

-- what `sendError` and `sendSuccess` write, or a panic
pub data Response : Type 0 where
  send_error : ℕ → Bytes → Response
  send_success : Bytes → Response
  panicked : Response

-- the part of the header in front of the first comma, unless the comma comes first
first_forwarded : Bytes → Option ℕ → Bytes
first_forwarded xff none = xff
first_forwarded xff (some zero) = xff
first_forwarded xff (some (suc i)) = take (suc i) xff

remote_host : Bytes → Option (Bytes × Bytes) → Bytes
remote_host addr none = addr
remote_host addr (some (host, port)) = host

unfoldable pub extract_client_ip : {Body : Type 0} → HttpRequest Body → Bytes
unfolding first_forwarded remote_host
extract_client_ip r =
    if not (r.forwarded_for ≟ [])
    then first_forwarded r.forwarded_for (index_byte r.forwarded_for b',')
    else remote_host r.remote_addr (split_host_port r.remote_addr)

abbrev pub offline_endpoint : Bytes
offline_endpoint = codes "0.0.0.0:0"

-- `targetPubKey[:16]` in the log line of a refusal panics on a shorter key.
pub data Authorization : Type 0 where
  granted denied denied_panic : Authorization

abbrev has_wg_ip : Option PeerInfo → Bytes → Bool
has_wg_ip none ip = false
has_wg_ip (some p) ip = p.wg_ip ≟ ip

unfoldable pub is_authorized : Config → PeerCache → Bytes → Bytes → Authorization
is_authorized v cache client_ip target =
    if client_ip ≟ v.self_wg_ip
    then granted
    else if has_wg_ip (Cache.get cache target) client_ip
    then granted
    else if ltb (length target) 16
    then denied_panic
    else denied

abbrev pub is_offline : Bytes → Bool
is_offline endpoint = endpoint ≟ offline_endpoint || endpoint ≟ []

-- the function that `handleEndpointUpdate` gives to `cache.Update`
unfoldable pub apply_update : DdnsEndpointRequest → PeerInfo → PeerInfo
apply_update req p =
    let keyed = record p { pub_key = req.pub_key } in
    if not (p.lan_endpoint ≟ req.lan_endpoint)
    then record keyed {
      lan_endpoint = if is_offline req.lan_endpoint then [] else req.lan_endpoint;
      dirty = true;
    }
    else keyed

abbrev bad_endpoint : Bytes → Bool
bad_endpoint endpoint =
    not (endpoint ≟ [])
    && not (endpoint ≟ offline_endpoint)
    && elim (split_host_port endpoint) [ none ↦ true | some parts ↦ false ]

abbrev pub updated : Response
updated = send_success (codes "Endpoint updated successfully")

module _ {S : Type 0} (e : Etcd S) (u : Unicode) where
  -- the second of the two writes; an error is only logged
  write_peer_alias : DdnsEndpointRequest → World S → Response × World S
  write_peer_alias req w =
      let (done, s) = e.put w.etcd (peer_key req.pub_key alias_field) req.alias in
      (updated, record w { etcd = s })

  -- `req.PubKey[:20]` in the log line of a success panics on a shorter key
  after_alias : DdnsEndpointRequest → Bool → World S → Response × World S
  unfolding write_peer_alias
  after_alias req true w =
      if ltb (length req.pub_key) 20 then (panicked, w) else write_peer_alias req w
  after_alias req false w = write_peer_alias req w

  unfoldable pub register_alias : DdnsEndpointRequest → World S → Response × World S
  unfolding after_alias
  register_alias req w =
      if req.alias ≟ [] then (updated, w) else elim (pubkey_to_dns_label u req.pub_key) [
        | none ↦ (updated, w)
        | some label ↦
            let (done, s) = e.put w.etcd (alias_key req.alias) req.pub_key in
            after_alias req done (record w { etcd = s })
      ]

  -- behind the checks of `handleEndpointUpdate`
  unfoldable pub commit_update : DdnsEndpointRequest → ℕ → World S → Response × World S
  commit_update req now w =
      register_alias req
        (record w { cache = Cache.update w.cache req.pub_key (apply_update req) now })

  authorized_update : DdnsEndpointRequest → ℕ → World S → Authorization → Response × World S
  unfolding commit_update
  authorized_update req now w denied_panic = (panicked, w)
  authorized_update req now w denied =
      (send_error 403 (codes "Not authorized to modify this peer"), w)
  authorized_update req now w granted =
      if bad_endpoint req.lan_endpoint
      then (send_error 400 (codes "Invalid lan_endpoint format (expected IP:PORT)"), w)
      else commit_update req now w

  unfoldable pub handle_endpoint_update :
      Config → HttpRequest DdnsEndpointRequest → ℕ → World S → Response × World S
  unfolding authorized_update
  handle_endpoint_update v r now w =
      if not (r.method ≟ codes "POST")
      then (send_error 405 (codes "Method not allowed"), w)
      else elim r.body [
        | none ↦ (send_error 400 (codes "Invalid JSON"), w)
        | some req ↦
            if req.pub_key ≟ []
            then (send_error 400 (codes "pubkey is required"), w)
            else authorized_update req now w
                (is_authorized v w.cache (extract_client_ip r) req.pub_key)
      ]

module _ {S : Type 0} (e : Etcd S) where
  -- the body of a deletion is the key
  unfoldable pub commit_delete : Bytes → World S → Response × World S
  commit_delete pubkey w =
      let (done, s) = e.delete w.etcd (alias_key pubkey) in
      (
        send_success (codes "Endpoint deleted successfully"),
        record { cache = Cache.delete w.cache pubkey; etcd = s },
      )

  unfoldable pub handle_endpoint_delete : Config → HttpRequest Bytes → World S → Response × World S
  unfolding commit_delete
  handle_endpoint_delete v r w =
      if not (r.method ≟ codes "DELETE") && not (r.method ≟ codes "POST")
      then (send_error 405 (codes "Method not allowed"), w)
      else elim r.body [
        | none ↦ (send_error 400 (codes "Invalid JSON"), w)
        | some pubkey ↦
            if pubkey ≟ []
            then (send_error 400 (codes "pubkey is required"), w)
            else if not (extract_client_ip r ≟ v.self_wg_ip)
            then (send_error 403 (codes "Only Discovery Role can delete peers"), w)
            else commit_delete pubkey w
      ]

-- the number in the body of /health
unfoldable pub handle_health : {S : Type 0} → World S → ℕ
handle_health w = Cache.count w.cache
