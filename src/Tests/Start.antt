-- ===== src/Tests/Start.antt =====
-- A start of the plugin with what an earlier run left in etcd.
use valon.Prelude.{
  List, ◌⊎◌, ◌≡◌, refl, Bool, true, false, Option, none, some, [], ◌∷◌, Bytes, codes, if◌then◌else◌,
  ◌≟◌, ≟_iff, subst, Bool-cases, inl, inr,
}
use valon.Text.{has_prefix, contains, index}
use valon.Etcd.{find}
use valon.Etcd.Keys.{peer_key, alias_key, wg_ip_field, lan_field, nated_field}
use valon.Plugin.Cache
use valon.Plugin.Cache.{PeerInfo}
use valon.Plugin.Sync.{peer_ops, write_peer_to_etcd}
use valon.Plugin.Load.{load_from_etcd, peers_prefix}
use valon.Plugin.Load.Keys.{IsUnmarked}
use valon.Etcd.Fields.{of_wg_ip, of_lan, of_nated}
use valon.Plugin.Load.Fields.{held, IsPeerKey}
use valon.Plugin.Load.OnlyPeers.{HasOnlyPeers}
use valon.Plugin.Load.RoundTrip.{fresh, reloaded, load_from_etcd-write_peer_to_etcd}
use valon.Wireguard.{PeerConfig}
use valon.Plugin.Cache.{PeerCache}
use valon.Plugin.Cache.Valid.{IsValid}
use valon.Plugin.World.{World}
use valon.Plugin.Sync.{sync_to_etcd}
use valon.Plugin.Node.{Reaches, here, then_step, sync_round}
use valon.Plugin.Start.{Host, Node, SelfError, restore_wireguard_peers, init}
use valon.Plugin.Start.Restored.{restores, restore_wireguard_peers-adds}
use valon.Plugin.Start.Started.{init-Reaches-IsValid}
use valon.Tests.Device.{wg0, one_device, one_device-IsWgctrl}
use valon.Tests.Memory.{Memory, memory, memory-IsEtcd}
use valon.Tests.Samples.{no_runes, network, key, cached, pub_key, peer, store}

abbrev mark_offline : PeerInfo → PeerInfo
mark_offline p = record p { lan_endpoint = [] }

-- the peer has gone offline since its endpoint was written
abbrev pub left : Memory
left = (peer_key pub_key lan_field, codes "192.168.1.5:51820") ∷ store

pub pub_key-IsUnmarked : IsUnmarked pub_key
unfolding contains index has_prefix valon.Base64.encode
pub_key-IsUnmarked = record { no_wg_ip = refl; no_alias = refl; no_endpoints = refl }

apart_prefix : has_prefix (alias_key (codes "my-laptop")) peers_prefix ≡ false
unfolding has_prefix alias_key
apart_prefix = refl

left-HasOnlyPeers : HasOnlyPeers (find left)
left-HasOnlyPeers j v inside found = elim (Bool-cases (peer_key pub_key lan_field ≟ j)) [
  | inl same ↦
      subst IsPeerKey ((≟_iff _ j).0 same)
        (record { owner = pub_key; unmarked = pub_key-IsUnmarked; field = of_lan; spelled = refl })
  | inr other ↦ elim (Bool-cases (alias_key (codes "my-laptop") ≟ j)) [
    | inl alias ↦
        let outside : has_prefix j peers_prefix ≡ false =
          subst (λ k. has_prefix k peers_prefix ≡ false) ((≟_iff _ j).0 alias) apart_prefix in
        absurd cc
    | inr no_alias ↦ let nothing : find left j ≡ none = rw (other, no_alias) refl in absurd cc
  ]
]

abbrev written : Bool × Memory
written = write_peer_to_etcd memory pub_key (mark_offline peer) left

written_done : written.0 ≡ true
unfolding write_peer_to_etcd peer_ops ◌≟◌ memory
written_done = refl

reload_done : (load_from_etcd memory 9 (fresh written.1)).0 ≡ true
unfolding load_from_etcd memory write_peer_to_etcd peer_ops ◌≟◌ has_prefix peer_key
reload_done = refl

load_from_etcd-write_peer_to_etcd_example :
    (held of_wg_ip (Cache.get (load_from_etcd memory 9 (fresh written.1)).1.cache pub_key)
      ≡ reloaded (codes "10.0.0.7") (find left (peer_key pub_key wg_ip_field)))
    × (held of_lan (Cache.get (load_from_etcd memory 9 (fresh written.1)).1.cache pub_key)
        ≡ reloaded [] (find left (peer_key pub_key lan_field)))
    × (held of_nated (Cache.get (load_from_etcd memory 9 (fresh written.1)).1.cache pub_key)
        ≡ reloaded (codes "203.0.113.9:41000") (find left (peer_key pub_key nated_field)))
unfolding memory-IsEtcd
load_from_etcd-write_peer_to_etcd_example =
    load_from_etcd-write_peer_to_etcd memory memory-IsEtcd 9 left pub_key (mark_offline peer)
      left-HasOnlyPeers pub_key-IsUnmarked written_done reload_done

abbrev pub host : Host
host i = if i ≟ wg0 then some (some (none ∷ some (10 ∷ 0 ∷ 0 ∷ 1 ∷ []) ∷ [])) else none

restore_wireguard_peers-adds_example :
    (one_device-IsWgctrl.has_peer (restore_wireguard_peers one_device wg0 cached []).1 wg0 key
      ≡ one_device-IsWgctrl.has_peer [] wg0 key)
    ⊎ ((one_device-IsWgctrl.has_peer [] wg0 key ≡ false)
        × (one_device-IsWgctrl.has_peer (restore_wireguard_peers one_device wg0 cached []).1 wg0 key
            ≡ true)
        × (restores cached key ≡ true))
restore_wireguard_peers-adds_example =
    restore_wireguard_peers-adds one_device one_device-IsWgctrl wg0 cached [] key

accepts : (t : List Bytes) (c : PeerConfig) → (one_device.configure_device t wg0 c).0 ≡ true
unfolding one_device ◌≟◌
accepts t c = refl

abbrev pub every : PeerCache → List (Bytes × PeerInfo)
every c = c

abbrev started : Option SelfError × Node Memory (List Bytes)
started = init one_device memory host wg0 9 every left []

started_well : started.0 ≡ none
unfolding init ◌≟◌ valon.Plugin.Start.get_own_public_key one_device load_from_etcd memory has_prefix
    peer_key valon.Plugin.Load.set_all valon.Plugin.Load.load_keys alias_key
    valon.Plugin.Load.load_key valon.Plugin.Load.split_key index valon.Text.trim_prefix
    valon.Base64.encode Cache.store valon.Plugin.Start.restored_config valon.Net.Cidr.parse_cidr
    valon.Text.index_byte valon.Plugin.Load.set_field valon.Text.split valon.Net.Addr.ipv4_fields
    valon.Plugin.Start.get_own_wireguard_ip valon.Net.Addr.to4 valon.Net.IpText.ip_string
    valon.Base64.decode Cache.get Cache.set valon.Plugin.Start.register_self restore_wireguard_peers
    valon.Wireguard.has_bytes
started_well = refl

abbrev started_then : World Memory
started_then = sync_to_etcd memory 10 (Cache.get_all started.1.world.cache) started.1.world

run : Reaches memory no_runes network started.1.world started_then
run =
    then_step started.1.world started_then here
      (sync_round 10 (Cache.get_all started.1.world.cache))

init-Reaches-IsValid_example : IsValid started_then.cache
init-Reaches-IsValid_example =
    init-Reaches-IsValid one_device memory host wg0 9 every left [] no_runes network started_then
      run
