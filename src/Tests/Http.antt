-- ===== src/Tests/Http.antt =====
-- Requests to the HTTP API.
use valon.Prelude.{
  zero, suc, ◌≤◌, ◌≡◌, ◌≢◌, refl, sym, ap, subst, ◌∙◌, inl, inr, none, some, [], Bytes, codes,
  if◌then◌else◌, ne_of_≟, ◌≟◌, length, arith,
}
use mathlib.Core.Option
use valon.Text.{has_byte, last_index_byte}
use valon.Net.HostPort.{split_host_port}
use valon.Etcd.{find}
use valon.Etcd.Keys.{alias_key}
use valon.Base64
use valon.Plugin.Encoding.{pubkey_to_dns_label}
use valon.Plugin.Cache
use valon.Plugin.Cache.{PeerInfo}
use valon.Plugin.Cache.Laws.{IsMap}
use valon.Plugin.World.{World}
use valon.Plugin.Ddns.{
  DdnsEndpointRequest, HttpRequest, send_error, send_success, granted, extract_client_ip,
  is_authorized, register_alias, handle_endpoint_update, handle_endpoint_delete,
}
use valon.Plugin.Ddns.Access.{
  MayUpdate, handle_endpoint_update-authorized, is_authorized-forwarded_for,
}
use valon.Plugin.Ddns.Update.{updated_peer, handle_endpoint_update-cache}
use valon.Plugin.Ddns.Delete.{handle_endpoint_delete-keeps_alias}
use valon.Tests.Memory.{Memory, memory, memory-IsEtcd}
use valon.Tests.Samples.{no_runes, network, pub_key, cached, store, world}
use valon.Tests.Dns.{peer_found}

abbrev pub move : DdnsEndpointRequest
move = record {
  pub_key = pub_key;
  lan_endpoint = codes "192.168.1.6:51820";
  alias = codes "my-desktop";
}

-- the peer itself asks, over the overlay network
abbrev pub own_request : HttpRequest DdnsEndpointRequest
own_request = record {
  method = codes "POST";
  body = some move;
  forwarded_for = [];
  remote_addr = codes "10.0.0.7:40000";
}

-- another peer asks
abbrev foreign_request : HttpRequest DdnsEndpointRequest
foreign_request = record own_request { remote_addr = codes "10.0.0.9:40000" }

abbrev spoofed_request : HttpRequest DdnsEndpointRequest
spoofed_request = record foreign_request { forwarded_for = codes "10.0.0.1" }

abbrev short_move : DdnsEndpointRequest
short_move = record move { pub_key = codes "abc" }

abbrev short_request : HttpRequest DdnsEndpointRequest
short_request = record foreign_request { body = some short_move }

abbrev deletion : HttpRequest Bytes
deletion = record {
  method = codes "DELETE";
  body = some pub_key;
  forwarded_for = [];
  remote_addr = codes "10.0.0.1:40000";
}

abbrev after : World Memory
after = (handle_endpoint_update memory no_runes network own_request 9 world).1

own_accepted :
    (handle_endpoint_update memory no_runes network own_request 9 world).0
    ≡ send_success (codes "Endpoint updated successfully")
unfolding handle_endpoint_update ◌≟◌ Base64.encode is_authorized extract_client_ip split_host_port
    last_index_byte has_byte Cache.get register_alias pubkey_to_dns_label Base64.decode memory
own_accepted = refl

not_offline :
    (p : PeerInfo) → Cache.get cached pub_key ≡ some p → p.lan_endpoint ≢ codes "0.0.0.0:0"
not_offline p h =
    let same = Option.some_inj.0 (sym peer_found ∙ h) in
    subst (λ q. q.lan_endpoint ≢ codes "0.0.0.0:0") same (ne_of_≟ _ _ (unfold ◌≟◌ in refl))

handle_endpoint_update-cache_example : Cache.get after.cache pub_key ≡ (
    if pub_key ≟ pub_key
    then Option.map (updated_peer move 9) (Cache.get cached pub_key)
    else Cache.get cached pub_key)
handle_endpoint_update-cache_example =
    handle_endpoint_update-cache memory no_runes network own_request 9 world move
      (codes "Endpoint updated successfully") refl not_offline own_accepted pub_key

own_changes : after ≢ world
unfolding handle_endpoint_update Cache.update ◌≟◌ Base64.encode is_authorized extract_client_ip
    split_host_port last_index_byte has_byte Cache.get register_alias pubkey_to_dns_label
    Base64.decode memory
own_changes h =
    let times : some 9 ≡ some 5 =
      ap (λ w. Option.map (λ p. p.updated_at) (Cache.get w.cache pub_key)) h in
    omega (arith, Option.some_inj.0 times)

handle_endpoint_update-authorized_example :
    (req : DdnsEndpointRequest) × (some move ≡ some req)
    × (codes "POST" ≡ codes "POST")
    × MayUpdate network cached (extract_client_ip own_request) req.pub_key
handle_endpoint_update-authorized_example =
    handle_endpoint_update-authorized memory no_runes network own_request 9 world own_changes

foreign_refused :
    (handle_endpoint_update memory no_runes network foreign_request 9 world).0
    ≡ send_error 403 (codes "Not authorized to modify this peer")
unfolding handle_endpoint_update ◌≟◌ Base64.encode is_authorized extract_client_ip split_host_port
    last_index_byte has_byte Cache.get
foreign_refused = refl

is_authorized-forwarded_for_example :
    is_authorized network cached (extract_client_ip spoofed_request) pub_key ≡ granted
unfolding ◌≟◌ has_byte
is_authorized-forwarded_for_example =
    is_authorized-forwarded_for network cached spoofed_request pub_key (ne_of_≟ _ _ refl) refl refl

pub_key-long : 20 ≤ length pub_key
unfolding Base64.encode
pub_key-long = omega arith

outsider : ¬ MayUpdate network cached (extract_client_ip short_request) (codes "abc")
unfolding extract_client_ip split_host_port last_index_byte has_byte ◌≟◌ Cache.get Base64.encode
outsider (inl same) = ne_of_≟ (codes "10.0.0.9") (codes "10.0.0.1") refl same
outsider (inr (p, found, same)) = let missing : none ≡ some p = found in cc

abbrev after_deletion : World Memory
after_deletion = (handle_endpoint_delete memory network deletion world).1

deletion_accepted :
    (handle_endpoint_delete memory network deletion world).0
    ≡ send_success (codes "Endpoint deleted successfully")
unfolding handle_endpoint_delete ◌≟◌ Base64.encode extract_client_ip split_host_port last_index_byte
    has_byte
deletion_accepted = refl

pub cached-IsMap : IsMap cached
unfolding Cache.get
cached-IsMap = (refl, tt)

zero-ne_one : zero ≢ suc zero
zero-ne_one h = omega arith

deletion_changes : after_deletion ≢ world
unfolding handle_endpoint_delete Cache.delete Cache.count ◌≟◌ Base64.encode extract_client_ip
    split_host_port last_index_byte has_byte
deletion_changes h = zero-ne_one (ap (λ w. Cache.count w.cache) h)

other_alias : codes "my-laptop" ≢ pub_key
unfolding ◌≟◌ Base64.encode
other_alias = ne_of_≟ (codes "my-laptop") pub_key refl

handle_endpoint_delete-keeps_alias_example :
    find after_deletion.etcd (alias_key (codes "my-laptop"))
    ≡ find store (alias_key (codes "my-laptop"))
unfolding memory memory-IsEtcd ◌≟◌
handle_endpoint_delete-keeps_alias_example =
    handle_endpoint_delete-keeps_alias memory memory-IsEtcd network deletion world pub_key
      (codes "Endpoint deleted successfully") refl deletion_accepted refl (codes "my-laptop")
      other_alias
