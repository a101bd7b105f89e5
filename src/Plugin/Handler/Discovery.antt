-- ===== src/Plugin/Handler/Discovery.antt =====
-- What a query for the service returns.
use valon.Prelude.{
  ◌≡◌, refl, ap, ◌∙◌, List, [], ◌∷◌, ◌++◌, map, Bytes, codes, All, ◌≟◌, Option, none, some,
  Option-cases, inl, inr,
}
use valon.Text.{Unicode}
use valon.Base64
use valon.Base32.RoundTrip.{IsByte}
use valon.Etcd.{Etcd}
use valon.Plugin.Encoding.{pubkey_to_dns_label}
use valon.Plugin.Encoding.RoundTrip.{pubkey_to_dns_label-encode}
use valon.Plugin.Cache.{PeerInfo, PeerCache}
use valon.Plugin.World.{World, Config}
use valon.Plugin.Message.{ResourceRecord, srv, wrote, reply, type_srv}
use valon.Plugin.Handler.{
  overlay_ip, a_if, service_loop, handle_service_discovery, handle_srv, serve_dns,
}
use valon.Plugin.Handler.Lookup.{qualified, key_label, relative_name-qualified, serve_dns-srv}

abbrev pub service : Bytes
service = codes "_valon._tcp"

-- The peers whose keys have a label, with their labels, in the order of the entries.
abbrev with_label : Option Bytes → PeerInfo → List (Bytes × PeerInfo) → List (Bytes × PeerInfo)
with_label none p rest = rest
with_label (some label) p rest = (label, p) ∷ rest

unfoldable pub labelled : Unicode → List (Bytes × PeerInfo) → List (Bytes × PeerInfo)
labelled u [] = []
labelled u ((k, p) ∷ entries) = with_label (pubkey_to_dns_label u p.pub_key) p (labelled u entries)

module _ (u : Unicode) (v : Config) where
  abbrev pub service_srv : Bytes × PeerInfo → ResourceRecord
  service_srv (label, p) = srv (qualified service v) 2 0 0 0 (qualified label v)

  abbrev pub service_addresses : List (Bytes × PeerInfo) → List ResourceRecord
  service_addresses [] = []
  service_addresses ((label, p) ∷ peers) =
      a_if (qualified label v) (overlay_ip p.wg_ip) ++ service_addresses peers

  service_loop-labelled :
      (entries : List (Bytes × PeerInfo))
      → service_loop u v (qualified service v) entries
        ≡ (map service_srv (labelled u entries), service_addresses (labelled u entries))
  unfolding service_loop labelled
  service_loop-labelled [] = refl
  service_loop-labelled ((k, p) ∷ entries) = elim (Option-cases (pubkey_to_dns_label u p.pub_key)) [
    | inl unread ↦ rw (unread, service_loop) (rw (service_loop-labelled entries) refl)
    | inr (label, read) ↦ rw (read, service_loop) (rw (service_loop-labelled entries) refl)
  ]

  discovery-labelled :
      (entry : Bytes × PeerInfo) (entries : List (Bytes × PeerInfo)) (c : PeerCache)
      → handle_srv u v (record { name = qualified service v; qtype = type_srv }) c (entry ∷ entries)
        ≡ wrote
            (reply
              (map service_srv (labelled u (entry ∷ entries)))
              (service_addresses (labelled u (entry ∷ entries))))
            0
  unfolding handle_srv handle_service_discovery ◌≟◌
  discovery-labelled entry entries c =
      rw (relative_name-qualified service v)
        (ap (λ r. wrote (reply r.0 r.1) 0) (service_loop-labelled (entry ∷ entries)))

  -- the key of bytes that has such a label is among those that are served
  labelled-key :
      (key k : Bytes) (p : PeerInfo) (entries : List (Bytes × PeerInfo))
      → All IsByte key
      → p.pub_key ≡ Base64.encode key
      → labelled u ((k, p) ∷ entries) ≡ (key_label u key, p) ∷ labelled u entries
  unfolding labelled
  labelled-key key k p entries bytes own =
      rw (own, labelled) (rw (pubkey_to_dns_label-encode u key bytes) refl)

  -- A query for _valon._tcp to a cache that is not empty is answered with one SRV record for each
  -- peer whose key has a label, in the order in which the range yields the peers: its target is that
  -- label. The additional section has the overlay address of each of these peers that has one, in
  -- that order. A peer whose key has no label is left out, wherever it stands.
  pub serve_dns-discovery :
      {S : Type 0} (e : Etcd S) (entry : Bytes × PeerInfo) (entries : List (Bytes × PeerInfo))
      (w : World S)
      → serve_dns e u v
          (record { name = qualified service v; qtype = type_srv })
          (entry ∷ entries)
          w
        ≡ (
          wrote
              (reply
                (map service_srv (labelled u (entry ∷ entries)))
                (service_addresses (labelled u (entry ∷ entries))))
              0,
          w.etcd,
        )
  serve_dns-discovery e entry entries w =
      serve_dns-srv e u v service (entry ∷ entries) w
      ∙ ap (λ r. (r, w.etcd)) (discovery-labelled entry entries w.cache)
