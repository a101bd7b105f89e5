-- ===== src/Tests/Deleting.antt =====
-- `valonctl peer remove` with the API of a running plugin.
use valon.Prelude.{
  ◌≡◌, ◌≢◌, refl, true, Option, none, some, [], Bytes, codes, ok, ne_of_≟, if◌then◌else◌, ◌≟◌,
}
use valon.Text.{has_prefix, is_ascii, all_bytes}
use valon.Plugin.Cache
use valon.Plugin.Ddns.{DdnsEndpointRequest}
use valon.Plugin.Handler.{direct, nxdomain, serve_dns}
use valon.Plugin.Handler.Lookup.{qualified, name_of}
use valon.Plugin.Handler.Alias.{a_query}
use valon.Plugin.Message.{type_a}
use valon.Plugin.World.{World}
use valon.Ctl.EtcdClient.{identify, remove_peer}
use valon.Registered.Shared.{on_world}
use valon.Etcd.{find}
use valon.Etcd.Keys.{peer_key, wg_ip_field}
use valon.Plugin.Sync.{sync_to_etcd}
use valon.Registered.Returns.{remove_peer-sync_to_etcd}
use valon.Plugin.Sync.Progress.{round_answered}
use valon.Registered.Deleted.{remove, seen_ip, remove-cache, remove-unanswered}
use valon.Tests.Memory.{Memory, memory, memory-IsEtcd}
use valon.Tests.Samples.{no_runes, network, key, key-bytes, pub_key, cached, peer}
use valon.Tests.Dns.{label, peer_found}
use valon.Tests.Registry.{registry, pub_key-ne_nil, alias-IsPlain}

abbrev no_update : Bytes → Option DdnsEndpointRequest
no_update body = none

-- a body that is the key itself
abbrev decode : Bytes → Option Bytes
decode body = some body

abbrev encode : Bytes → Bytes
encode pubkey = pubkey

abbrev listen : Bytes
listen = codes "10.0.0.1:8053"

abbrev url : Bytes
url = codes "http://10.0.0.1:8053"

abbrev from_discovery : Bytes
from_discovery = codes "10.0.0.1:40000"

abbrev running : World Memory
running = record { cache = cached; etcd = registry }

abbrev laptop : Bytes
laptop = codes "my-laptop"

listen-ne_nil : listen ≢ []
unfolding ◌≟◌
listen-ne_nil = ne_of_≟ listen [] refl

url-ne_nil : url ≢ []
unfolding ◌≟◌
url-ne_nil = ne_of_≟ url [] refl

known_here : (identify (on_world memory) laptop running).0 ≡ ok (pub_key, laptop)
unfolding identify valon.Text.contains valon.Text.has_suffix ◌≟◌ memory
    valon.Ctl.EtcdClient.add_peer valon.Base64.encode valon.Text.Path.path_join valon.Text.split
known_here = refl

from_there :
    seen_ip no_update decode encode memory no_runes network listen url from_discovery 9
    ≡ codes "10.0.0.1"
unfolding valon.Plugin.Ddns.extract_client_ip ◌≟◌ valon.Net.HostPort.split_host_port
    valon.Text.last_index_byte valon.Text.has_byte
from_there = refl

remove-cache_example :
    (remove no_update decode encode memory no_runes network listen url from_discovery 9 laptop
      running).1.cache
    ≡ (if seen_ip no_update decode encode memory no_runes network listen url from_discovery 9
          ≟ codes "10.0.0.1"
        then Cache.delete cached pub_key
        else cached)
remove-cache_example =
    remove-cache no_update decode encode memory no_runes network listen url from_discovery 9 laptop
      pub_key laptop running url-ne_nil listen-ne_nil refl pub_key-ne_nil known_here

removed_here :
    (remove no_update decode encode memory no_runes network listen url from_discovery 9 laptop
      running).0
    ≡ none
unfolding valon.Ctl.EtcdClient.remove_peer valon.Text.contains valon.Text.has_suffix ◌≟◌ memory
    valon.Ctl.EtcdClient.add_peer valon.Base64.encode valon.Text.Path.path_join valon.Text.split
removed_here = refl

remove-unanswered_example :
    ((serve_dns memory no_runes network
        (record { name = qualified (name_of (direct label)) network; qtype = type_a })
        []
        (remove no_update decode encode memory no_runes network listen url from_discovery 9 laptop
          running).1).0
      ≡ nxdomain)
    × ((serve_dns memory no_runes network
          (a_query network laptop)
          []
          (remove no_update decode encode memory no_runes network listen url from_discovery 9 laptop
            running).1).0
        ≡ nxdomain)
unfolding memory-IsEtcd has_prefix is_ascii all_bytes ◌≟◌ Cache.get
remove-unanswered_example =
    remove-unanswered no_update decode encode memory no_runes network listen url from_discovery 9
      laptop pub_key laptop running url-ne_nil listen-ne_nil refl pub_key-ne_nil known_here
      memory-IsEtcd key (direct label) [] (refl, tt) from_there key-bytes refl refl alias-IsPlain
      (refl, refl) refl refl removed_here

address-ne_nil : codes "10.0.0.7" ≢ []
unfolding ◌≟◌
address-ne_nil = ne_of_≟ (codes "10.0.0.7") [] refl

-- valonctl on another host
abbrev from_elsewhere : Bytes
from_elsewhere = codes "10.0.0.9:40000"

elsewhere :
    seen_ip no_update decode encode memory no_runes network listen url from_elsewhere 9
    ≢ codes "10.0.0.1"
unfolding valon.Plugin.Ddns.extract_client_ip ◌≟◌ valon.Net.HostPort.split_host_port
    valon.Text.last_index_byte valon.Text.has_byte
elsewhere = ne_of_≟ _ _ refl

abbrev refused : World Memory
refused =
    (remove no_update decode encode memory no_runes network listen url from_elsewhere 9 laptop
      running).1

refused_written : round_answered memory 9 cached refused ≡ true
unfolding memory round_answered valon.Plugin.Sync.write_peer_to_etcd valon.Plugin.Sync.peer_ops ◌≟◌
refused_written = refl

listed_here : Cache.get cached pub_key ≡ Cache.get refused.cache pub_key
unfolding remove_peer valon.Text.contains valon.Text.has_suffix ◌≟◌ memory
    valon.Ctl.EtcdClient.add_peer valon.Base64.encode valon.Text.Path.path_join valon.Text.split
    valon.Plugin.Ddns.extract_client_ip valon.Net.HostPort.split_host_port
    valon.Text.last_index_byte valon.Text.has_byte valon.Ctl.DdnsDelete.ddns_call
    valon.Plugin.Ddns.Server.request_ddns_server valon.Text.trim_prefix
    valon.Plugin.Ddns.handle_endpoint_delete
listed_here = refl

remove_peer-sync_to_etcd_example :
    find (sync_to_etcd memory 9 cached refused).etcd (peer_key pub_key wg_ip_field)
    ≡ some (codes "10.0.0.7")
unfolding memory-IsEtcd Cache.get
remove_peer-sync_to_etcd_example =
    remove_peer-sync_to_etcd no_update decode encode memory memory-IsEtcd no_runes network listen
      url from_elsewhere 9 laptop pub_key laptop running 9 cached peer url-ne_nil listen-ne_nil refl
      pub_key-ne_nil known_here elsewhere peer_found refl address-ne_nil refused_written (refl, tt)
      listed_here
