-- ===== src/Registered/Restarted.antt =====
-- A start of the plugin (coredns-plugin/valon/valon.go) after `AddPeer` and after `peer add` of
-- valonctl (valonctl/pkg/client/etcd.go, valonctl/cmd/peer_add.go), and the queries after it.
use valon.Prelude.{ℕ, ◌≡◌, ◌≢◌, ◌∙◌, true, false, none, some, List, [], Bytes, All}
use valon.Text.{Unicode, is_ascii, all_bytes}
use valon.Text.Path.{IsPlain}
use valon.Base32.RoundTrip.{IsByte}
use valon.Base64
use valon.Net.Addr.{parse_ip}
use valon.Etcd.{Etcd, IsEtcd, KeyValue}
use valon.Etcd.Keys.{alias_key}
use valon.Plugin.Cache
use valon.Plugin.World.{Config}
use valon.Plugin.Load.{load_from_etcd}
use valon.Plugin.Load.Keys.{IsUnmarked}
use valon.Plugin.Load.OnlyPeers.{HasOnlyPeers}
use valon.Plugin.Load.RoundTrip.{fresh}
use valon.Plugin.Encoding.Labels.{is_label_letter}
use valon.Plugin.Handler.Lookup.{key_label}
use valon.Plugin.Handler.Alias.{IsFree}
use valon.Ctl.EtcdClient.{PeerInfo, add_peer}
use valon.Ctl.EtcdClient.Added.{registered, write_all-added_keys}
use valon.Ctl.EtcdClient.Committed.{Registered-add_peer}
use valon.Registered.Serves.{AnswersPeer, registered-AnswersPeer}

module _ {S : Type 0} (e : Etcd S) (laws : IsEtcd e) where
  module _ (peer : PeerInfo) (s : S) (plain_key : IsPlain peer.pubkey)
      (plain_alias : IsPlain peer.alias) (added : (add_peer e peer s).0 ≡ none) where
    pub contents-add_peer : laws.contents (add_peer e peer s).1 ≡ registered peer (laws.contents s)
    contents-add_peer =
        let (free, written) = Registered-add_peer e laws peer s added in
        written ∙ write_all-added_keys peer (laws.contents s) plain_key plain_alias

    -- After `AddPeer` without an error and a start of the plugin, the label and the alias of the peer
    -- are served. The conditions on the key, the alias and etcd are those of the queries.
    restart_serves :
        (u : Unicode) (v : Config) (now : ℕ) (key ip : Bytes) (kvs : List KeyValue)
        (entries : List (Bytes × Cache.PeerInfo))
        → IsUnmarked peer.pubkey
        → HasOnlyPeers (laws.contents s)
        → All IsByte key
        → key_label u key ≢ []
        → peer.pubkey ≡ Base64.encode key
        → IsFree peer.alias
        → is_ascii peer.alias ≡ true
        → all_bytes is_label_letter peer.alias ≡ false
        → parse_ip peer.ip ≡ some ip
        → (load_from_etcd e now (fresh (add_peer e peer s).1)).0 ≡ true
        → (e.get
            (load_from_etcd e now (fresh (add_peer e peer s).1)).1.etcd
            (alias_key peer.alias)).0
          ≡ some kvs
        → AnswersPeer e u v peer key ip entries
            (load_from_etcd e now (fresh (add_peer e peer s).1)).1
    restart_serves u v now key ip kvs entries is_unmarked only =
        registered-AnswersPeer e laws peer (add_peer e peer s).1 (laws.contents s) is_unmarked only
          contents-add_peer u v now key ip kvs entries
