-- ===== src/Plugin/Handler/Alias.antt =====
-- Which aliases the DNS server resolves.
use valon.Prelude.{
  ◌≡◌, ◌≢◌, refl, ap, ◌∙◌, true, false, Option, none, some, List, [], ◌∷◌, Bytes, codes, ≟_ne, All,
}
use valon.Text.{Unicode, has_prefix, is_ascii, all_bytes}
use valon.Base32.RoundTrip.{IsByte}
use valon.Base64
use valon.Etcd.{Etcd, IsEtcd}
use valon.Etcd.Keys.{alias_key}
use valon.Plugin.Encoding.{dns_label_to_pubkey}
use valon.Plugin.Encoding.Labels.{is_label_letter, is_read, is_read-dns_label_to_pubkey}
use valon.Plugin.Encoding.RoundTrip.{dns_label_to_pubkey-label, pubkey_to_dns_label-encode}
use valon.Plugin.Cache
use valon.Plugin.Cache.{PeerInfo, PeerCache}
use valon.Plugin.World.{World, Config}
use valon.Plugin.Message.{cname, Query, wrote, reply, type_a}
use valon.Plugin.Handler.{
  nxdomain, direct, overlay_ip, a_record, answer_a, alias_label, return_cname, lookup_alias,
  or_cname, handle_a_target, serve_dns,
}
use valon.Net.Addr.{parse_ip}
use valon.Plugin.Handler.Lookup.{
  overlay_ip-parse_ip, qualified, key_label, serve_dns-a, read_target-direct,
}

-- The label of an alias is decoded exactly if all its bytes are letters of the decoder.
pub not_decoded :
    (u : Unicode) (s : Bytes)
    → is_ascii s ≡ true
    → all_bytes is_label_letter s ≡ false
    → dns_label_to_pubkey u s ≡ none
not_decoded u s h k = from (dns_label_to_pubkey u s) (is_read-dns_label_to_pubkey u s h ∙ k)
  where
    from : (o : Option Bytes) → is_read o ≡ false → o ≡ none
    from none e = refl
    from (some key) e = cc

decoded :
    (u : Unicode) (s : Bytes)
    → is_ascii s ≡ true
    → all_bytes is_label_letter s ≡ true
    → (k : Bytes) × (dns_label_to_pubkey u s ≡ some k)
decoded u s h k = from (dns_label_to_pubkey u s) (is_read-dns_label_to_pubkey u s h ∙ k)
  where
    from : (o : Option Bytes) → is_read o ≡ true → (k : Bytes) × (o ≡ some k)
    from none e = cc
    from (some key) e = (key, refl)

abbrev pub a_query : Config → Bytes → Query
a_query v alias = record { name = qualified alias v; qtype = type_a }

-- an alias has none of the prefixes that ask for an endpoint
abbrev pub IsFree : Bytes → Type 0
IsFree alias =
    (has_prefix alias (codes "lan.") ≡ false) × (has_prefix alias (codes "nated.") ≡ false)

module _ {S : Type 0} (e : Etcd S) (u : Unicode) (v : Config) where
  pub serve_dns-direct :
      (alias : Bytes) (entries : List (Bytes × PeerInfo)) (w : World S)
      → IsFree alias
      → serve_dns e u v (a_query v alias) entries w
        ≡ handle_a_target e u v (a_query v alias) (direct alias) w
  serve_dns-direct alias entries w free =
      serve_dns-a e u v alias entries w
      ∙ ap (λ t. handle_a_target e u v (a_query v alias) t w)
          (read_target-direct alias free.0 free.1)

  -- An ASCII alias whose bytes are all letters, digits from 2 to 7 or line breaks, and that starts
  -- with neither lan. nor nated., is read as the label of a key, and etcd is never asked for it:
  -- if no peer with that very key is in the cache, the answer is NXDOMAIN, whatever the alias is
  -- registered for.
  pub serve_dns-letters :
      (alias : Bytes) (entries : List (Bytes × PeerInfo)) (w : World S)
      → IsFree alias
      → is_ascii alias ≡ true
      → all_bytes is_label_letter alias ≡ true
      → ((k : Bytes) → dns_label_to_pubkey u alias ≡ some k → Cache.get w.cache k ≡ none)
      → serve_dns e u v (a_query v alias) entries w ≡ (nxdomain, w.etcd)
  unfolding handle_a_target answer_a
  serve_dns-letters alias entries w free ascii letters absent =
      let (k, decodes) = decoded u alias ascii letters in
      serve_dns-direct alias entries w free
      ∙ rw (decodes, handle_a_target) (rw (absent k decodes, answer_a))

  lookup_alias-found :
      (laws : IsEtcd e) (alias key : Bytes) (s : S)
      → All IsByte key
      → laws.contents s (alias_key alias) ≡ some (Base64.encode key)
      → (kvs : List (Bytes × Bytes)) → (e.get s (alias_key alias)).0 ≡ some kvs
      → lookup_alias e u v alias s ≡ (key_label u key, (e.get s (alias_key alias)).1)
  unfolding lookup_alias alias_label
  lookup_alias-found laws alias key s bytes stored kvs got =
      rw (got, lookup_alias)
        (rw (laws.get_returns s (alias_key alias) kvs got, stored)
          (rw (Base64.Plain.trim_space-encode u key bytes)
            (rw (pubkey_to_dns_label-encode u key bytes))))

  return_cname-key :
      (q : Query) (c : PeerCache) (key ip : Bytes) (p : PeerInfo)
      → All IsByte key
      → Cache.get c (Base64.encode key) ≡ some p
      → overlay_ip p.wg_ip ≡ some ip
      → return_cname u v c q (key_label u key)
        ≡ wrote
            (reply
              (cname q.name 2 (qualified (key_label u key) v)
                ∷ a_record (qualified (key_label u key) v) ip
                ∷ [])
              [])
            0
  unfolding return_cname
  return_cname-key q c key ip p bytes cached at_ip =
      rw (dns_label_to_pubkey-label u key bytes, return_cname)
        (rw (cached, return_cname) (rw (at_ip, return_cname)))

  -- An ASCII alias with a byte that is no letter of a label is looked up in etcd if it starts with
  -- neither of the prefixes lan. and nated.: where it is registered for the key of a peer in the
  -- cache whose overlay address is an IP, and etcd answers, the reply is a CNAME record to the
  -- label of that key, which is not empty, then an A record with the address of the peer.
  pub serve_dns-alias :
      (laws : IsEtcd e) (alias key ip : Bytes) (p : PeerInfo) (kvs : List (Bytes × Bytes))
      (entries : List (Bytes × PeerInfo)) (w : World S)
      → IsFree alias
      → is_ascii alias ≡ true
      → all_bytes is_label_letter alias ≡ false
      → All IsByte key
      → key_label u key ≢ []
      → laws.contents w.etcd (alias_key alias) ≡ some (Base64.encode key)
      → (e.get w.etcd (alias_key alias)).0 ≡ some kvs
      → Cache.get w.cache (Base64.encode key) ≡ some p
      → parse_ip p.wg_ip ≡ some ip
      → serve_dns e u v (a_query v alias) entries w ≡ (
        wrote
            (reply
              (cname (qualified alias v) 2 (qualified (key_label u key) v)
                ∷ a_record (qualified (key_label u key) v) ip
                ∷ [])
              [])
            0,
        (e.get w.etcd (alias_key alias)).1,
      )
  unfolding handle_a_target or_cname
  serve_dns-alias laws alias key ip p kvs entries w free ascii other bytes labelled stored got
        cached address =
      serve_dns-direct alias entries w free
      ∙ rw (not_decoded u alias ascii other, handle_a_target)
          (rw (lookup_alias-found laws alias key w.etcd bytes stored kvs got) (
            rw (≟_ne (key_label u key) [] labelled) (
              ap (λ r. (r, (e.get w.etcd (alias_key alias)).1))
                (return_cname-key (a_query v alias) w.cache key ip p bytes cached
                  (overlay_ip-parse_ip p.wg_ip ip address)))))
