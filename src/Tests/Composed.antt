-- ===== src/Tests/Composed.antt =====
-- valonctl, etcd and the plugin together, and the synchronisation after other steps.
use valon.Prelude.{
  ◌≡◌, refl, true, false, Bool, Option, Bytes, none, some, [], codes, ◌≟◌, subst, sym, ap, ◌∙◌,
  Bool-cases, inl, inr, ≟_iff,
}
use valon.Text.{has_prefix, has_suffix, is_ascii, all_bytes, split, contains}
use valon.Text.Path.{path_join}
use valon.Base64
use valon.Etcd.{find}
use valon.Etcd.Fields.{of_nated, field_name}
use valon.Etcd.Keys.{peer_key}
use valon.Plugin.Cache
use valon.Plugin.Cache.{PeerInfo}
use valon.Plugin.Load.{load_from_etcd}
use valon.Plugin.Load.OnlyPeers.{HasOnlyPeers}
use valon.Plugin.Load.RoundTrip.{fresh}
use valon.Plugin.Message.{type_a}
use valon.Plugin.Handler.{nated, nxdomain, serve_dns}
use valon.Plugin.Handler.Lookup.{qualified, name_of}
use valon.Plugin.Handler.Alias.{a_query}
use valon.Plugin.Node.{Reaches, here, then_step, query, poll}
use valon.Plugin.Sync.{sync_to_etcd}
use valon.Plugin.Sync.Progress.{round_answered, synced, sync_to_etcd-contents}
use valon.Plugin.World.{World}
use valon.Ctl.EtcdClient.{identify, call_ddns, add_peer, remove_peer}
use valon.Registered.Restarted.{contents-add_peer}
use valon.Registered.Serves.{HasOnlyPeers-registered}
use valon.Registered.Removed.{restart_forgets}
use valon.Tests.Memory.{Memory, memory, memory-IsEtcd}
use valon.Tests.Samples.{no_runes, network, key, key-bytes, pub_key, peer, cached, store, world}
use valon.Tests.Dns.{label, peer_found}
use valon.Tests.Registry.{new_peer, registry, known, pub_key-IsPlain, alias-IsPlain}
use valon.Tests.Start.{pub_key-IsUnmarked}
use valon.Plugin.Cache.Marked.{is_marked, Marked}
use mathlib.Core.Option
use valon.Plugin.Cache.Valid.{IsValid}

round_written : round_answered memory 9 cached world ≡ true
unfolding memory round_answered valon.Plugin.Sync.write_peer_to_etcd valon.Plugin.Sync.peer_ops ◌≟◌
round_written = refl

sync_to_etcd-contents_example :
    find (sync_to_etcd memory 9 cached world).etcd (peer_key pub_key (field_name of_nated))
    ≡ synced of_nated
        (Cache.get cached pub_key)
        (find store (peer_key pub_key (field_name of_nated)))
unfolding memory-IsEtcd Cache.get
sync_to_etcd-contents_example =
    sync_to_etcd-contents memory memory-IsEtcd 9 pub_key of_nated cached world round_written
      (refl, tt)

pub cached-IsValid : IsValid cached
unfolding Cache.get
cached-IsValid = (
  (refl, tt),
  λ j p found. elim (Bool-cases (pub_key ≟ j)) [
    | inl same ↦
        let e : some peer ≡ some p = rw same at found in
        sym (ap (λ x. x.pub_key) (Option.some_inj.0 e)) ∙ (≟_iff pub_key j).0 same
    | inr other ↦ let never : none ≡ some p = rw other at found in absurd cc
  ],
)

pub cached-Marked : Marked pub_key cached
cached-Marked = ap is_marked peer_found

-- a query, and a poll that cannot read the device
abbrev pub later : World Memory
later = record world {
  etcd = (serve_dns memory no_runes network (a_query network label) [] world).1;
}

pub run : Reaches memory no_runes network world later
unfolding valon.Plugin.Monitor.poll_wireguard
run =
    then_step later later (then_step world later here (query (a_query network label) []))
      (poll 8 none)

pub empty-HasOnlyPeers : HasOnlyPeers (find [])
empty-HasOnlyPeers j v inside found = absurd cc

added : (add_peer memory new_peer []).0 ≡ none
unfolding memory add_peer ◌≟◌ Base64.encode path_join split
added = refl

registry-HasOnlyPeers : HasOnlyPeers (find registry)
unfolding memory-IsEtcd
registry-HasOnlyPeers =
    subst HasOnlyPeers
      (sym (contents-add_peer memory memory-IsEtcd new_peer [] pub_key-IsPlain alias-IsPlain added))
      (HasOnlyPeers-registered new_peer (find []) pub_key-IsUnmarked empty-HasOnlyPeers)

-- an API that answers with an error and does nothing
abbrev refusing : Option (Bytes → Memory → Bool × Memory)
refusing = some (λ pubkey s. (false, s))

abbrev emptied : Memory
emptied = (remove_peer memory refusing (codes "my-laptop") registry).1

removed : (remove_peer memory refusing (codes "my-laptop") registry).0 ≡ none
unfolding remove_peer contains has_suffix ◌≟◌ memory add_peer Base64.encode path_join split
removed = refl

adds_nothing :
    (j v : Bytes)
    → find (call_ddns memory refusing pub_key (identify memory (codes "my-laptop") registry).1) j
      ≡ some v
    → find registry j ≡ some v
unfolding call_ddns memory identify add_peer contains ◌≟◌ has_suffix
adds_nothing j v h = h

reloads : (load_from_etcd memory 9 (fresh emptied)).0 ≡ true
unfolding load_from_etcd memory remove_peer has_prefix contains has_suffix ◌≟◌ add_peer
    Base64.encode path_join split
reloads = refl

restart_forgets_example :
    ((serve_dns memory no_runes network
        (record { name = qualified (name_of (nated label)) network; qtype = type_a })
        []
        (load_from_etcd memory 9 (fresh emptied)).1).0
      ≡ nxdomain)
    × ((serve_dns memory no_runes network
          (a_query network (codes "my-laptop"))
          []
          (load_from_etcd memory 9 (fresh emptied)).1).0
        ≡ nxdomain)
unfolding memory-IsEtcd has_prefix is_ascii all_bytes ◌≟◌
restart_forgets_example =
    restart_forgets memory memory-IsEtcd refusing (codes "my-laptop") pub_key (codes "my-laptop")
      registry pub_key-IsUnmarked pub_key-IsPlain alias-IsPlain registry-HasOnlyPeers known
      adds_nothing removed no_runes network 9 key (nated label) [] key-bytes refl refl (refl, refl)
      refl refl reloads
