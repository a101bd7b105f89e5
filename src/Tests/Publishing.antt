-- ===== src/Tests/Publishing.antt =====
-- An endpoint from the request of its peer to the answer of another node.
use valon.Prelude.{
  ne_of_≟, ◌≢◌, Bytes, false, ◌++◌, ◌≡◌, refl, true, none, some, [], ◌∷◌, codes, ◌≟◌, subst,
  Bool-cases, inl, inr, ≟_iff,
}
use valon.Text.{has_prefix, has_suffix, has_byte, is_ascii, all_bytes, split, contains}
use valon.Base64
use valon.Net.Addr.{parse_ip}
use valon.Etcd.{find}
use valon.Etcd.Keys.{peer_key, alias_key}
use valon.Plugin.Cache
use valon.Plugin.Cache.{PeerInfo}
use valon.Plugin.Load.{peers_prefix, load_from_etcd}
use valon.Plugin.Load.OnlyPeers.{HasOnlyPeers}
use valon.Plugin.Load.RoundTrip.{fresh}
use valon.Plugin.Message.{wrote, reply, type_a}
use valon.Plugin.Handler.{lan, nated, a_record, serve_dns}
use valon.Plugin.Handler.Lookup.{qualified, name_of, EndsAt}
use valon.Plugin.Sync.{sync_to_etcd}
use valon.Plugin.World.{World}
use valon.Plugin.Cache.Laws.{IsMap}
use valon.Plugin.Ddns.{
  DdnsEndpointRequest, HttpRequest, send_success, offline_endpoint, is_offline,
  handle_endpoint_update,
}
use valon.Net.Addr.{v4_prefix}
use valon.Plugin.Node.Published.{update_served}
use valon.Tests.Http.{move, own_request}
use valon.Tests.Memory.{Memory, memory, memory-IsEtcd}
use valon.Tests.Samples.{cached, no_runes, network, key, key-bytes, peer, store, world}
use valon.Tests.Dns.{label, peer_found}
use valon.Tests.Start.{pub_key-IsUnmarked}
use valon.Plugin.Sync.Progress.{round_answered}
use valon.Tests.Composed.{later, run, cached-IsValid, cached-Marked}
use valon.Plugin.Node.Served.{AllUnmarked, Reaches_served}

-- the same request without an alias
abbrev endpoint_only : DdnsEndpointRequest
endpoint_only = record move { alias = [] }

abbrev own_update : HttpRequest DdnsEndpointRequest
own_update = record own_request { body = some endpoint_only }

abbrev moved : World Memory
moved = (handle_endpoint_update memory no_runes network own_update 9 world).1

update_accepted :
    (handle_endpoint_update memory no_runes network own_update 9 world).0
    ≡ send_success (codes "Endpoint updated successfully")
unfolding handle_endpoint_update ◌≟◌ Base64.encode valon.Plugin.Ddns.is_authorized
    valon.Plugin.Ddns.extract_client_ip valon.Net.HostPort.split_host_port
    valon.Text.last_index_byte has_byte Cache.get valon.Plugin.Ddns.register_alias
update_accepted = refl

abbrev published : Memory
published = (sync_to_etcd memory 10 moved.cache moved).etcd

published_loads : (load_from_etcd memory 11 (fresh published)).0 ≡ true
unfolding load_from_etcd memory sync_to_etcd handle_endpoint_update ◌≟◌ Base64.encode
    valon.Plugin.Ddns.is_authorized valon.Plugin.Ddns.extract_client_ip
    valon.Net.HostPort.split_host_port valon.Text.last_index_byte has_byte Cache.get
    valon.Plugin.Ddns.register_alias Cache.update valon.Plugin.Sync.peer_ops
    valon.Plugin.Ddns.apply_update has_prefix peer_key
published_loads = refl

moved-IsMap : IsMap moved.cache
unfolding handle_endpoint_update ◌≟◌ Base64.encode valon.Plugin.Ddns.is_authorized
    valon.Plugin.Ddns.extract_client_ip valon.Net.HostPort.split_host_port
    valon.Text.last_index_byte has_byte Cache.get valon.Plugin.Ddns.register_alias Cache.update
moved-IsMap = (refl, tt)

moved-AllUnmarked : AllUnmarked moved.cache
unfolding handle_endpoint_update ◌≟◌ Base64.encode valon.Plugin.Ddns.is_authorized
    valon.Plugin.Ddns.extract_client_ip valon.Net.HostPort.split_host_port
    valon.Text.last_index_byte has_byte Cache.get valon.Plugin.Ddns.register_alias Cache.update
moved-AllUnmarked = (pub_key-IsUnmarked, tt)

peer_online : peer.lan_endpoint ≢ offline_endpoint
peer_online = ne_of_≟ _ _ (unfold ◌≟◌ in refl)

not_offline : is_offline endpoint_only.lan_endpoint ≡ false
unfolding ◌≟◌
not_offline = refl

abbrev new_address : Bytes
new_address = v4_prefix ++ 192 ∷ 168 ∷ 1 ∷ 6 ∷ []

new_EndsAt : EndsAt (codes "192.168.1.6:51820") new_address
unfolding valon.Net.HostPort.split_host_port valon.Text.last_index_byte has_byte parse_ip ◌≟◌
new_EndsAt = (codes "192.168.1.6", codes "51820", refl, refl)

alias-apart : has_prefix (alias_key (codes "my-laptop")) peers_prefix ≡ false
unfolding has_prefix alias_key
alias-apart = refl

store-HasOnlyPeers : HasOnlyPeers (find store)
store-HasOnlyPeers j v inside found = elim (Bool-cases (alias_key (codes "my-laptop") ≟ j)) [
  | inl same ↦
      let outside : has_prefix j peers_prefix ≡ false =
        subst (λ k. has_prefix k peers_prefix ≡ false) ((≟_iff _ j).0 same) alias-apart in
      absurd cc
  | inr other ↦ let nothing : find store j ≡ none = rw other refl in absurd cc
]

moved-HasOnlyPeers : HasOnlyPeers (find moved.etcd)
unfolding handle_endpoint_update ◌≟◌ Base64.encode alias_key valon.Plugin.Ddns.is_authorized
    valon.Plugin.Ddns.extract_client_ip valon.Net.HostPort.split_host_port
    valon.Text.last_index_byte has_byte Cache.get valon.Plugin.Ddns.register_alias
moved-HasOnlyPeers = store-HasOnlyPeers

moved_written : round_answered memory 10 moved.cache moved ≡ true
unfolding memory round_answered handle_endpoint_update ◌≟◌ Base64.encode
    valon.Plugin.Ddns.is_authorized valon.Plugin.Ddns.extract_client_ip
    valon.Net.HostPort.split_host_port valon.Text.last_index_byte has_byte Cache.get
    valon.Plugin.Ddns.register_alias Cache.update valon.Plugin.Sync.write_peer_to_etcd
    valon.Plugin.Sync.peer_ops valon.Plugin.Ddns.apply_update
moved_written = refl

update_served_example :
    (serve_dns memory no_runes network
      (record { name = qualified (name_of (lan label)) network; qtype = type_a })
      []
      (load_from_etcd memory 11 (fresh published)).1).0
    ≡ wrote (reply (a_record (qualified (name_of (lan label)) network) new_address ∷ []) []) 0
unfolding memory-IsEtcd
update_served_example =
    update_served memory memory-IsEtcd no_runes network own_update 9 world endpoint_only
      (codes "Endpoint updated successfully") peer refl update_accepted peer_found peer_online key
      new_address 10 11 moved.cache [] not_offline new_EndsAt key-bytes refl pub_key-IsUnmarked
      moved-AllUnmarked moved_written moved-IsMap refl moved-HasOnlyPeers published_loads

cached-IsMap : IsMap cached
unfolding Cache.get
cached-IsMap = (refl, tt)

later-HasOnlyPeers : HasOnlyPeers (find later.etcd)
unfolding serve_dns ◌≟◌ has_suffix alias_key valon.Text.to_lower valon.Base32.encode
    valon.Base32.to_digits valon.Base32.digit_char valon.Plugin.Encoding.dns_label_to_pubkey
    valon.Base32.decode valon.Base32.read_digits valon.Base32.strip_newlines valon.Text.to_upper
    valon.Plugin.Handler.read_target has_prefix valon.Plugin.Handler.relative_name
    valon.Text.trim_suffix valon.Base32.char_digit
later-HasOnlyPeers = store-HasOnlyPeers

later_loads : (load_from_etcd memory 11 (fresh (sync_to_etcd memory 10 cached later).etcd)).0 ≡ true
unfolding load_from_etcd memory sync_to_etcd ◌≟◌ Base64.encode Cache.get Cache.update
    valon.Plugin.Sync.peer_ops has_prefix peer_key
later_loads = refl

abbrev old_address : Bytes
old_address = v4_prefix ++ 203 ∷ 0 ∷ 113 ∷ 9 ∷ []

old_EndsAt : EndsAt (codes "203.0.113.9:41000") old_address
unfolding valon.Net.HostPort.split_host_port valon.Text.last_index_byte has_byte parse_ip ◌≟◌
old_EndsAt = (codes "203.0.113.9", codes "41000", refl, refl)

later_written : round_answered memory 10 cached later ≡ true
unfolding memory round_answered valon.Plugin.Sync.write_peer_to_etcd valon.Plugin.Sync.peer_ops ◌≟◌
later_written = refl

Reaches_served_example :
    (serve_dns memory no_runes network
      (record { name = qualified (name_of (nated label)) network; qtype = type_a })
      []
      (load_from_etcd memory 11 (fresh (sync_to_etcd memory 10 cached later).etcd)).1).0
    ≡ wrote (reply (a_record (qualified (name_of (nated label)) network) old_address ∷ []) []) 0
unfolding memory-IsEtcd handle_endpoint_update ◌≟◌ Base64.encode valon.Plugin.Ddns.is_authorized
    valon.Plugin.Ddns.extract_client_ip valon.Net.HostPort.split_host_port
    valon.Text.last_index_byte has_byte Cache.get valon.Plugin.Ddns.register_alias Cache.update
Reaches_served_example =
    Reaches_served memory memory-IsEtcd no_runes network later peer (nated label) key old_address
      key-bytes refl peer_found old_EndsAt pub_key-IsUnmarked later-HasOnlyPeers 10 11 cached []
      moved-AllUnmarked later_written cached-IsMap refl later_loads world cached-IsValid
      cached-Marked run
