-- ===== src/Tests/Adding.antt =====
-- A run of `valonctl peer add` with an address that is allocated.
use valon.Prelude.{
  ◌≡◌, refl, Bool, true, false, Option, none, some, List, [], ◌∷◌, ◌++◌, Bytes, codes, Result, ok,
  ≟_refl,
}
use valon.Etcd.{find, write_all}
use valon.Net.Addr.{v4_prefix}
use valon.Net.Cidr.{IpNet, parse_cidr}
use valon.Ctl.Config.{Config}
use valon.Ctl.EtcdClient.{alias_path, added_keys}
use valon.Ctl.PeerAdd.{Outside, PeerAddError, Added, ClientConfig, peer_info, run_peer_add}
use valon.Ctl.PeerAdd.Leaves.{Leaves, run_peer_add-Leaves}
use valon.Ctl.PeerAdd.Registers.{ChosenIp, run_peer_add-registers}
use valon.Etcd.{at_key}
use valon.Etcd.Keys.{alias_key}
use valon.Net.Addr.{parse_ip}
use valon.Plugin.World.{World}
use valon.Plugin.Load.{load_from_etcd}
use valon.Plugin.Load.RoundTrip.{fresh}
use valon.Registered.Serves.{AnswersPeer}
use valon.Registered.Commands.{run_peer_add-serves}
use valon.Tests.Samples.{network, key, key-bytes}
use valon.Tests.Dns.{label-ne_nil}
use valon.Tests.Registry.{pub_key-IsPlain}
use valon.Tests.Start.{pub_key-IsUnmarked}
use valon.Tests.Composed.{empty-HasOnlyPeers}
use valon.Tests.Memory.{Memory, memory, memory-IsEtcd}
use valon.Tests.Device.{wg0, one_device, one_device-IsWgctrl}
use valon.Tests.Samples.{no_runes, pub_key}

abbrev cfg : Config
cfg = record {
  wg_interface = wg0;
  ip = codes "10.0.0.1";
  endpoint = [];
  network = codes "10.0.0.0/30";
  dns_zone = codes "valon.internal";
  etcd_endpoints = codes "localhost:2379" ∷ [];
  api_url = codes "http://localhost:8053";
}

abbrev before : Outside Memory (List Bytes)
before = record { etcd = []; wireguard = [] }

abbrev run : Result PeerAddError Added × Outside Memory (List Bytes)
run = run_peer_add memory one_device no_runes cfg 9 pub_key (codes "desk-top") true [] before

run_peer_add-Leaves_example :
    Leaves memory one_device memory-IsEtcd one_device-IsWgctrl no_runes cfg 9 pub_key
      (codes "desk-top")
      before
      run
run_peer_add-Leaves_example =
    run_peer_add-Leaves memory one_device memory-IsEtcd one_device-IsWgctrl no_runes cfg 9 pub_key
      (codes "desk-top") true [] before

abbrev added : Added
added = (
  codes "10.0.0.1",
  some (record {
    address = codes "10.0.0.1";
    prefix = codes "24";
    dns = codes "10.0.0.1";
    dns_zone = codes "valon.internal";
    public_key = pub_key;
    endpoint = codes "<DISCOVERY_ROLE_LAN_IP:51820>";
    allowed_ip = codes "10.0.0.1";
  }),
)

run_succeeds : run.0 ≡ ok added
unfolding run_peer_add valon.Ctl.Validation.validate_alias valon.Ctl.Allocation.allocate_ip
    valon.Net.Cidr.parse_cidr valon.Text.index_byte valon.Net.Addr.ipv4_fields valon.Prelude.◌≟◌
    memory valon.Net.Cidr.contains valon.Net.Addr.to4 valon.Ctl.Address.increment_ip
    valon.Ctl.Allocation.is_used valon.Text.has_prefix valon.Text.Path.path_join valon.Text.split
    valon.Text.has_suffix valon.Net.IpText.ip_string valon.Net.Dotted.dotted
    valon.Ctl.WireguardClient.add_peer valon.Ctl.WireguardClient.parse_key valon.Base64.encode
    valon.Base64.decode valon.Ctl.EtcdClient.add_peer one_device
    valon.Ctl.WireguardClient.get_public_key valon.Ctl.PeerAdd.client_config valon.Text.to_lower
    valon.Ctl.Validation.check_lower valon.Ctl.Validation.dns_label_regex valon.Text.contains
    valon.Ctl.Validation.check_reserved
run_succeeds = refl

run_peer_add-registers_example :
    ChosenIp memory one_device memory-IsEtcd no_runes cfg 9 pub_key
      (codes "desk-top")
      []
      []
      (codes "10.0.0.1")
    × (find [] (alias_path (codes "desk-top")) ≡ none)
    × (find run.1.etcd
        ≡ write_all
            (find [])
            (added_keys (peer_info pub_key (codes "10.0.0.1") (codes "desk-top"))))
unfolding memory-IsEtcd
run_peer_add-registers_example =
    run_peer_add-registers memory one_device memory-IsEtcd no_runes cfg 9 pub_key (codes "desk-top")
      true [] before added run_succeeds

abbrev restarted : World Memory
restarted = (load_from_etcd memory 9 (fresh run.1.etcd)).1

run_loads : (load_from_etcd memory 9 (fresh run.1.etcd)).0 ≡ true
unfolding load_from_etcd run_peer_add valon.Ctl.Validation.validate_alias
    valon.Ctl.Allocation.allocate_ip valon.Net.Cidr.parse_cidr valon.Text.index_byte
    valon.Net.Addr.ipv4_fields valon.Prelude.◌≟◌ memory valon.Net.Cidr.contains valon.Net.Addr.to4
    valon.Ctl.Address.increment_ip valon.Ctl.Allocation.is_used valon.Text.has_prefix
    valon.Text.Path.path_join valon.Text.split valon.Text.has_suffix valon.Net.IpText.ip_string
    valon.Net.Dotted.dotted valon.Ctl.WireguardClient.add_peer valon.Ctl.WireguardClient.parse_key
    valon.Base64.encode valon.Base64.decode valon.Ctl.EtcdClient.add_peer one_device
    valon.Ctl.WireguardClient.get_public_key valon.Ctl.PeerAdd.client_config valon.Text.to_lower
    valon.Ctl.Validation.check_lower valon.Ctl.Validation.dns_label_regex valon.Text.contains
    valon.Ctl.Validation.check_reserved
run_loads = refl

run_peer_add-serves_example :
    (ip : Bytes) × (parse_ip (codes "10.0.0.1") ≡ some ip)
    × AnswersPeer memory no_runes network
        (peer_info pub_key (codes "10.0.0.1") (codes "desk-top"))
        key
        ip
        []
        restarted
unfolding valon.Text.to_lower memory-IsEtcd valon.Text.all_bytes
run_peer_add-serves_example =
    run_peer_add-serves memory one_device memory-IsEtcd no_runes cfg 9 pub_key (codes "desk-top")
      true [] before added run_succeeds pub_key-IsPlain refl network 9 key
      (at_key (alias_key (codes "desk-top")) (find restarted.etcd (alias_key (codes "desk-top"))))
      [] pub_key-IsUnmarked empty-HasOnlyPeers key-bytes label-ne_nil refl refl run_loads refl
