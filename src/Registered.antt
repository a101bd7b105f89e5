-- ===== src/Registered.antt =====
-- Both programs together: what valonctl registers in etcd (valonctl/pkg/client/etcd.go), the plugin
-- answers (coredns-plugin/valon/handler.go).
pub mod Serves
pub mod Restarted
pub mod Commands
pub mod Removed
pub mod Shared
pub mod Deleted
pub mod Returns
use valon.Prelude.{
  ◌≡◌, ◌≢◌, refl, ap, ◌∙◌, inl, inr, true, false, none, some, List, [], ◌∷◌, Bytes, All, ≟_refl,
}
use valon.Text.{Unicode, is_ascii, all_bytes}
use valon.Text.Path.{IsPlain}
use valon.Base64
use valon.Base32.RoundTrip.{IsByte}
use valon.Net.Addr.{parse_ip}
use valon.Etcd.{Etcd, IsEtcd, KeyValue, Contents}
use valon.Etcd.Keys.{alias_key}
use valon.Plugin.Cache
use valon.Plugin.Cache.{PeerCache}
use valon.Plugin.World.{Config}
use valon.Plugin.Message.{cname, wrote, reply}
use valon.Plugin.Encoding.Labels.{is_label_letter}
use valon.Plugin.Handler.{a_record, serve_dns}
use valon.Plugin.Handler.Lookup.{qualified, key_label}
use valon.Plugin.Handler.Alias.{a_query, IsFree, serve_dns-alias}
use valon.Ctl.EtcdClient.{PeerInfo, alias_path, added_keys, add_peer}
use valon.Ctl.EtcdClient.Added.{registered, add_peer-contents}

pub registered-alias :
    (peer : PeerInfo) (m : Contents) → registered peer m (alias_key peer.alias) ≡ some peer.pubkey
registered-alias peer m = rw (≟_refl (alias_key peer.alias)) refl

module _ {S : Type 0} (e : Etcd S) (u : Unicode) (v : Config) (laws : IsEtcd e) where
  add_peer-stores :
      (peer : PeerInfo) (s : S)
      → peer.pubkey ≢ []
      → peer.ip ≢ []
      → peer.alias ≢ []
      → IsPlain peer.pubkey
      → IsPlain peer.alias
      → laws.contents s (alias_key peer.alias) ≡ none
      → (e.txn s (alias_path peer.alias ∷ []) (added_keys peer)).0 ≡ some true
      → laws.contents (add_peer e peer s).1 (alias_key peer.alias) ≡ some peer.pubkey
  add_peer-stores peer s has_key has_ip has_alias plain_key plain_alias free committed =
      elim (add_peer-contents e laws peer s true has_key has_ip has_alias plain_key plain_alias
        committed) [
          | inl (missing, no_error, stored) ↦
              ap (λ m. m (alias_key peer.alias)) stored ∙ registered-alias peer (laws.contents s)
          | inr (k, found, error, kept) ↦ absurd (cc (rw free at found))
        ]

  -- After valonctl has registered a peer under a free alias, the DNS server answers a query for the
  -- alias with a CNAME record to the label of the peer's key and an A record with the overlay
  -- address of the peer, if the peer is in the cache with an IP, etcd answers, the key and the
  -- alias have no empty element and none of dots between slashes, and the alias is ASCII text with
  -- a byte that is no letter of a label, in front of which stands neither lan. nor nated.
  serve_dns-add_peer :
      (peer : PeerInfo) (key ip : Bytes) (s : S) (c : PeerCache) (p : Cache.PeerInfo)
      (kvs : List KeyValue) (entries : List (Bytes × Cache.PeerInfo))
      → All IsByte key
      → key_label u key ≢ []
      → peer.pubkey ≡ Base64.encode key
      → peer.pubkey ≢ []
      → peer.ip ≢ []
      → peer.alias ≢ []
      → IsPlain peer.pubkey
      → IsPlain peer.alias
      → IsFree peer.alias
      → is_ascii peer.alias ≡ true
      → all_bytes is_label_letter peer.alias ≡ false
      → laws.contents s (alias_key peer.alias) ≡ none
      → (e.txn s (alias_path peer.alias ∷ []) (added_keys peer)).0 ≡ some true
      → (e.get (add_peer e peer s).1 (alias_key peer.alias)).0 ≡ some kvs
      → Cache.get c (Base64.encode key) ≡ some p
      → parse_ip p.wg_ip ≡ some ip
      → (serve_dns e u v
          (a_query v peer.alias)
          entries
          (record { cache = c; etcd = (add_peer e peer s).1 })).0
        ≡ wrote
            (reply
              (cname (qualified peer.alias v) 2 (qualified (key_label u key) v)
                ∷ a_record (qualified (key_label u key) v) ip
                ∷ [])
              [])
            0
  serve_dns-add_peer peer key ip s c p kvs entries bytes labelled is_key has_key has_ip has_alias
        plain_key plain_alias prefix_free ascii other free committed got cached address =
      ap (λ r. r.0)
        (serve_dns-alias e u v laws peer.alias key ip p kvs entries
          (record { cache = c; etcd = (add_peer e peer s).1 }) prefix_free ascii other bytes
          labelled
          (add_peer-stores peer s has_key has_ip has_alias plain_key plain_alias free committed
            ∙ ap some is_key)
          got cached address)
