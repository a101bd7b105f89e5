-- ===== src/Registered/Serves.antt =====
-- What a start of the plugin (coredns-plugin/valon/valon.go) makes of an etcd that holds a peer as
-- valonctl (valonctl/pkg/client/etcd.go) registers it, and the queries after it.
use valon.Prelude.{
  ℕ, ◌≡◌, ◌≢◌, refl, ap, sym, subst, ◌∙◌, inl, inr, true, false, some, List, [], ◌∷◌, Bytes, ◌≟◌,
  ≟_iff, ≟_refl, All, Bool-cases,
}
use valon.Text.{Unicode, has_prefix, is_ascii, all_bytes}
use valon.Base32.RoundTrip.{IsByte}
use valon.Base64
use valon.Net.Addr.{parse_ip}
use valon.Etcd.{Etcd, IsEtcd, KeyValue, Contents}
use valon.Etcd.Fields.{of_wg_ip, of_alias, ≟-peer_key}
use valon.Etcd.Keys.{peer_key, alias_key, wg_ip_field, alias_field}
use valon.Plugin.Cache
use valon.Plugin.World.{World, Config}
use valon.Plugin.Load.{peers_prefix, load_from_etcd}
use valon.Plugin.Load.Keys.{IsUnmarked}
use valon.Plugin.Load.Fields.{held-some}
use valon.Plugin.Load.OnlyPeers.{HasOnlyPeers, HasOnlyPeers-write_all}
use valon.Plugin.Load.RoundTrip.{fresh, load_from_etcd-fields}
use valon.Plugin.Load.Reads.{contents-load_from_etcd}
use valon.Plugin.Message.{cname, wrote, reply}
use valon.Plugin.Encoding.Labels.{is_label_letter}
use valon.Plugin.Handler.{direct, a_record, serve_dns}
use valon.Plugin.Handler.Lookup.{parse_ip-ne_nil, qualified, key_label, serve_dns-peer}
use valon.Plugin.Handler.Alias.{a_query, IsFree, serve_dns-alias}
use valon.Ctl.EtcdClient.{PeerInfo}
use valon.Ctl.EtcdClient.Added.{registered}
use valon.Registered.{registered-alias}

alias_key-apart : (alias : Bytes) → has_prefix (alias_key alias) peers_prefix ≡ false
unfolding has_prefix alias_key
alias_key-apart alias = refl

alias_key-peer_key : (alias q field : Bytes) → alias_key alias ≟ peer_key q field ≡ false
unfolding alias_key peer_key ◌≟◌
alias_key-peer_key alias q field = refl

pub HasOnlyPeers-registered :
    (peer : PeerInfo) (m : Contents)
    → IsUnmarked peer.pubkey
    → HasOnlyPeers m
    → HasOnlyPeers (registered peer m)
HasOnlyPeers-registered peer m hq only j v inside found =
    elim (Bool-cases (alias_key peer.alias ≟ j)) [
      | inl same ↦
          let outside : has_prefix j peers_prefix ≡ false =
            subst (λ k. has_prefix k peers_prefix ≡ false) ((≟_iff _ j).0 same)
              (alias_key-apart peer.alias) in
          absurd cc
      | inr other ↦
          HasOnlyPeers-write_all m
            ((peer_key peer.pubkey wg_ip_field, peer.ip)
              ∷ (peer_key peer.pubkey alias_field, peer.alias)
              ∷ [])
            (
              record { owner = peer.pubkey; unmarked = hq; field = of_wg_ip; spelled = refl },
              (record { owner = peer.pubkey; unmarked = hq; field = of_alias; spelled = refl }, tt),
            )
            only j v inside (rw other at found)
    ]

registered-wg_ip :
    (peer : PeerInfo) (m : Contents)
    → registered peer m (peer_key peer.pubkey wg_ip_field) ≡ some peer.ip
unfolding ◌≟◌
registered-wg_ip peer m =
    rw
      (
        alias_key-peer_key peer.alias peer.pubkey wg_ip_field,
        ≟-peer_key peer.pubkey peer.pubkey of_alias of_wg_ip,
        ≟_refl peer.pubkey,
        ≟_refl (peer_key peer.pubkey wg_ip_field),
      )
      refl

module _ {S : Type 0} (e : Etcd S) (u : Unicode) (v : Config) where
  -- The label of the key is answered with the address, and the alias with a CNAME record to that
  -- label and the address.
  abbrev pub AnswersPeer :
      PeerInfo → Bytes → Bytes → List (Bytes × Cache.PeerInfo) → World S → Type 0
  AnswersPeer peer key ip entries w =
      let address = a_record (qualified (key_label u key) v) ip in
      ((serve_dns e u v (a_query v (key_label u key)) entries w).0
        ≡ wrote (reply (address ∷ []) []) 0)
      × ((serve_dns e u v (a_query v peer.alias) entries w).0
          ≡ wrote
              (reply
                (cname (qualified peer.alias v) 2 (qualified (key_label u key) v) ∷ address ∷ [])
                [])
              0)

module _ {S : Type 0} (e : Etcd S) (laws : IsEtcd e) (peer : PeerInfo) (s : S) (m : Contents)
    (is_unmarked : IsUnmarked peer.pubkey) (only : HasOnlyPeers m)
    (holds : laws.contents s ≡ registered peer m) where
  loads_peer :
      (now : ℕ) (ip : Bytes)
      → parse_ip peer.ip ≡ some ip
      → (load_from_etcd e now (fresh s)).0 ≡ true
      → (p : Cache.PeerInfo) × (Cache.get (load_from_etcd e now (fresh s)).1.cache peer.pubkey
          ≡ some p)
        × (p.wg_ip ≡ peer.ip)
  loads_peer now ip parsed done = held-some of_wg_ip _ peer.ip (parse_ip-ne_nil peer.ip ip parsed) (
      load_from_etcd-fields e laws now s peer.pubkey of_wg_ip
        (subst HasOnlyPeers (sym holds) (HasOnlyPeers-registered peer m is_unmarked only))
        is_unmarked refl done
      ∙ rw (holds, registered-wg_ip peer m) refl)

  -- Of an etcd that holds a peer as valonctl registers it, a start of the plugin serves the label
  -- and the alias.
  pub registered-AnswersPeer :
      (u : Unicode) (v : Config) (now : ℕ) (key ip : Bytes) (kvs : List KeyValue)
      (entries : List (Bytes × Cache.PeerInfo))
      → All IsByte key
      → key_label u key ≢ []
      → peer.pubkey ≡ Base64.encode key
      → IsFree peer.alias
      → is_ascii peer.alias ≡ true
      → all_bytes is_label_letter peer.alias ≡ false
      → parse_ip peer.ip ≡ some ip
      → (load_from_etcd e now (fresh s)).0 ≡ true
      → (e.get (load_from_etcd e now (fresh s)).1.etcd (alias_key peer.alias)).0 ≡ some kvs
      → AnswersPeer e u v peer key ip entries (load_from_etcd e now (fresh s)).1
  registered-AnswersPeer u v now key ip kvs entries bytes labelled is_key free ascii other parsed
        done got =
      let w = (load_from_etcd e now (fresh s)).1 in
      let (p, found, at_ip) = loads_peer now ip parsed done in
      let cached : Cache.get w.cache (Base64.encode key) ≡ some p = rw (← is_key) found in
      let address : parse_ip p.wg_ip ≡ some ip = rw at_ip parsed in
      let stored : laws.contents w.etcd (alias_key peer.alias) ≡ some (Base64.encode key) =
        ap (λ c. c (alias_key peer.alias)) (contents-load_from_etcd e laws now (fresh s) ∙ holds)
        ∙ registered-alias peer m
        ∙ ap some is_key in
      (
        ap (λ r. r.0)
            (serve_dns-peer e u v key (direct (key_label u key)) ip p entries w bytes refl cached
              address),
        ap (λ r. r.0)
            (serve_dns-alias e u v laws peer.alias key ip p kvs entries w free ascii other bytes
              labelled stored got cached address),
      )
