-- ===== src/Plugin/Handler/Services.antt =====
-- What a query for the endpoints of a peer returns.
use valon.Prelude.{
  ◌≡◌, ◌≢◌, refl, ap, ◌∙◌, false, some, List, [], ◌∷◌, ◌++◌, Bytes, codes, ◌≟◌, ≟_ne, All,
}
use valon.Text.{Unicode}
use valon.Text.Laws.{has_prefix-append, trim_prefix-append}
use valon.Base32.RoundTrip.{IsByte}
use valon.Base64
use valon.Net.HostPort.{split_host_port}
use valon.Net.Addr.{parse_ip}
use valon.Net.Number.{atoi_uint16}
use valon.Etcd.{Etcd}
use valon.Plugin.Encoding.{dns_label_to_pubkey}
use valon.Plugin.Encoding.RoundTrip.{dns_label_to_pubkey-label}
use valon.Plugin.Cache
use valon.Plugin.Cache.{PeerInfo, PeerCache}
use valon.Plugin.World.{World, Config}
use valon.Plugin.Message.{srv, Query, wrote, reply, type_srv}
use valon.Plugin.Handler.{
  lan, nated, relative_name, a_record, endpoint_records, unless_empty, answer_srv, handle_srv,
  serve_dns,
}
use valon.Plugin.Handler.Lookup.{
  qualified, name_of, key_label, relative_name-qualified, serve_dns-srv,
}

abbrev pub srv_label : Bytes → Bytes
srv_label label = codes "_wireguard._udp." ++ label

srv_label-not_service : (l : Bytes) → srv_label l ≟ codes "_valon._tcp" ≡ false
unfolding ◌≟◌
srv_label-not_service l = refl

module _ (v : Config) (name label : Bytes) (p : PeerInfo) where
  -- what `handleSRV` builds if both endpoints are of the form host:port with an IP as the host
  answer_srv-both :
      (lan_host lan_port nat_host nat_port lan_ip nat_ip : Bytes)
      → p.lan_endpoint ≢ []
      → p.nat_endpoint ≢ []
      → split_host_port p.lan_endpoint ≡ some (lan_host, lan_port)
      → split_host_port p.nat_endpoint ≡ some (nat_host, nat_port)
      → parse_ip lan_host ≡ some lan_ip
      → parse_ip nat_host ≡ some nat_ip
      → answer_srv v name label (some p)
        ≡ wrote
            (reply
              (srv name 2 0 0 (atoi_uint16 lan_port) (qualified (name_of (lan label)) v)
                ∷ srv name 2 10 0 (atoi_uint16 nat_port) (qualified (name_of (nated label)) v)
                ∷ [])
              (a_record (qualified (name_of (lan label)) v) lan_ip
                ∷ a_record (qualified (name_of (nated label)) v) nat_ip
                ∷ []))
            0
  unfolding answer_srv endpoint_records unless_empty
  answer_srv-both lan_host lan_port nat_host nat_port lan_ip nat_ip has_lan has_nat lan_split
        nat_split lan_parse nat_parse =
      rw (
        ≟_ne p.lan_endpoint [] has_lan,
        ≟_ne p.nat_endpoint [] has_nat,
        lan_split,
        nat_split,
        lan_parse,
        nat_parse,
      )

module _ {S : Type 0} (e : Etcd S) (u : Unicode) (v : Config) where
  handle_srv-label :
      (q : Query) (label k : Bytes) (c : PeerCache) (entries : List (Bytes × PeerInfo))
      → relative_name q.name v.zone ≡ srv_label label
      → dns_label_to_pubkey u label ≡ some k
      → handle_srv u v q c entries ≡ answer_srv v q.name label (Cache.get c k)
  unfolding handle_srv
  handle_srv-label q label k c entries named decodes =
      rw
        (
          named,
          srv_label-not_service label,
          has_prefix-append (codes "_wireguard._udp.") label,
          trim_prefix-append (codes "_wireguard._udp.") label,
        )
        (rw (decodes, handle_srv) (rw (named, trim_prefix-append (codes "_wireguard._udp.") label)))

  -- For a peer in the cache whose two endpoints are each a host and a port with an IP as the host,
  -- the query for _wireguard._udp.<label> is answered with two SRV records, the LAN endpoint first
  -- and at the higher priority, and the additional section holds an A record for each target.
  pub serve_dns-srv_both :
      (key : Bytes) (p : PeerInfo) (entries : List (Bytes × PeerInfo)) (w : World S)
      (lan_host lan_port nat_host nat_port lan_ip nat_ip : Bytes)
      → All IsByte key
      → Cache.get w.cache (Base64.encode key) ≡ some p
      → p.lan_endpoint ≢ []
      → p.nat_endpoint ≢ []
      → split_host_port p.lan_endpoint ≡ some (lan_host, lan_port)
      → split_host_port p.nat_endpoint ≡ some (nat_host, nat_port)
      → parse_ip lan_host ≡ some lan_ip
      → parse_ip nat_host ≡ some nat_ip
      → serve_dns e u v
          (record { name = qualified (srv_label (key_label u key)) v; qtype = type_srv })
          entries
          w
        ≡ (
          wrote
              (reply
                (srv
                    (qualified (srv_label (key_label u key)) v)
                    2
                    0
                    0
                    (atoi_uint16 lan_port)
                    (qualified (name_of (lan (key_label u key))) v)
                  ∷ srv
                      (qualified (srv_label (key_label u key)) v)
                      2
                      10
                      0
                      (atoi_uint16 nat_port)
                      (qualified (name_of (nated (key_label u key))) v)
                  ∷ [])
                (a_record (qualified (name_of (lan (key_label u key))) v) lan_ip
                  ∷ a_record (qualified (name_of (nated (key_label u key))) v) nat_ip
                  ∷ []))
              0,
          w.etcd,
        )
  serve_dns-srv_both key p entries w lh lp nh np li ni bytes cached has_lan has_nat ls ns lparse
        nparse =
      let l = key_label u key in
      let name = qualified (srv_label l) v in
      serve_dns-srv e u v (srv_label l) entries w
      ∙ ap (λ r. (r, w.etcd))
          (handle_srv-label (record { name = name; qtype = type_srv }) l (Base64.encode key) w.cache
              entries (relative_name-qualified (srv_label l) v)
              (dns_label_to_pubkey-label u key bytes)
            ∙ ap (answer_srv v name l) cached
            ∙ answer_srv-both v name l p lh lp nh np li ni has_lan has_nat ls ns lparse nparse)
