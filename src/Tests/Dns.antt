-- ===== src/Tests/Dns.antt =====
-- Queries to the DNS server.
use valon.Prelude.{
  ◌≡◌, ◌≢◌, refl, none, some, List, map, [], ◌∷◌, ◌++◌, Bytes, codes, ne_of_≟, ≟_refl, ◌≟◌,
}
use valon.Base32
use valon.Base64
use mathlib.Core.Option
use valon.Text.{
  has_prefix, is_ascii, all_bytes, to_lower, to_upper, last_index_byte, index_byte, has_byte,
}
use valon.Net.HostPort.{split_host_port}
use valon.Net.Number.{atoi_uint16}
use valon.Plugin.Encoding.{dns_label_to_pubkey}
use valon.Net.Addr.{v4_prefix, parse_ip}
use valon.Plugin.Cache
use valon.Plugin.Cache.{PeerInfo}
use valon.Plugin.Message.{srv, wrote, reply, type_a, type_srv}
use valon.Plugin.Handler.{lan, nated, nxdomain, a_record, serve_dns}
use valon.Plugin.Handler.Reply.{IsReply, serve_dns-IsReply}
use valon.Plugin.Handler.Lookup.{qualified, name_of, key_label, HasAddress, serve_dns-peer}
use valon.Plugin.Handler.Services.{srv_label, serve_dns-srv_both}
use valon.Plugin.Handler.Discovery.{
  service, labelled, service_srv, service_addresses, serve_dns-discovery,
}
use valon.Plugin.Handler.Alias.{a_query, serve_dns-letters}
use valon.Tests.Memory.{memory}
use valon.Tests.Samples.{no_runes, network, key, key-bytes, pub_key, peer, cached, store, world}

abbrev pub label : Bytes
label = key_label no_runes key

abbrev lan_address : Bytes
lan_address = v4_prefix ++ 192 ∷ 168 ∷ 1 ∷ 5 ∷ []

abbrev nat_address : Bytes
nat_address = v4_prefix ++ 203 ∷ 0 ∷ 113 ∷ 9 ∷ []

abbrev overlay_address : Bytes
overlay_address = v4_prefix ++ 10 ∷ 0 ∷ 0 ∷ 7 ∷ []

pub peer_found : Cache.get cached pub_key ≡ some peer
unfolding Cache.get
peer_found = rw (≟_refl pub_key) refl

lan_found : HasAddress (lan label) peer lan_address
unfolding split_host_port last_index_byte index_byte has_byte parse_ip ◌≟◌
lan_found = (codes "192.168.1.5", codes "51820", refl, refl)

serve_dns-peer_example :
    serve_dns memory no_runes network
      (record { name = qualified (name_of (lan label)) network; qtype = type_a })
      (Cache.get_all cached)
      world
    ≡ (
      wrote (reply (a_record (qualified (name_of (lan label)) network) lan_address ∷ []) []) 0,
      store,
    )
serve_dns-peer_example =
    serve_dns-peer memory no_runes network key (lan label) lan_address peer (Cache.get_all cached)
      world key-bytes refl peer_found lan_found

serve_dns-srv_both_example :
    serve_dns memory no_runes network
      (record { name = qualified (srv_label label) network; qtype = type_srv })
      (Cache.get_all cached)
      world
    ≡ (
      wrote
          (reply
            (srv
                (qualified (srv_label label) network)
                2
                0
                0
                (atoi_uint16 (codes "51820"))
                (qualified (name_of (lan label)) network)
              ∷ srv
                  (qualified (srv_label label) network)
                  2
                  10
                  0
                  (atoi_uint16 (codes "41000"))
                  (qualified (name_of (nated label)) network)
              ∷ [])
            (a_record (qualified (name_of (lan label)) network) lan_address
              ∷ a_record (qualified (name_of (nated label)) network) nat_address
              ∷ []))
          0,
      store,
    )
unfolding split_host_port last_index_byte index_byte has_byte parse_ip ◌≟◌
serve_dns-srv_both_example =
    serve_dns-srv_both memory no_runes network key peer (Cache.get_all cached) world
      (codes "192.168.1.5") (codes "51820") (codes "203.0.113.9") (codes "41000") lan_address
      nat_address key-bytes peer_found (ne_of_≟ _ _ refl) (ne_of_≟ _ _ refl) refl refl refl refl

letters_absent :
    (k : Bytes) → dns_label_to_pubkey no_runes (codes "alice") ≡ some k → Cache.get cached k ≡ none
unfolding dns_label_to_pubkey Base32.decode Base32.pack Base32.read_digits Base32.strip_newlines
    Base32.char_digit to_upper Base64.encode Cache.get ◌≟◌
letters_absent k h = rw (← Option.some_inj.0 h) refl

serve_dns-letters_example :
    serve_dns memory no_runes network (a_query network (codes "alice")) (Cache.get_all cached) world
    ≡ (nxdomain, store)
unfolding has_prefix is_ascii all_bytes
serve_dns-letters_example =
    serve_dns-letters memory no_runes network (codes "alice") (Cache.get_all cached) world
      (refl, refl) refl refl letters_absent

pub label-ne_nil : label ≢ []
unfolding ◌≟◌ Base32.encode Base32.to_digits to_lower is_ascii Base32.digit_char
label-ne_nil = ne_of_≟ label [] refl

serve_dns-IsReply_example :
    IsReply
      (serve_dns memory no_runes network
        (record { name = codes "_valon._tcp.valon.internal."; qtype = type_srv })
        (Cache.get_all cached)
        world).0
serve_dns-IsReply_example =
    serve_dns-IsReply memory no_runes network
      (record { name = codes "_valon._tcp.valon.internal."; qtype = type_srv })
      (Cache.get_all cached) world

abbrev entries : List (Bytes × PeerInfo)
entries = (pub_key, peer) ∷ (codes "?", record peer { pub_key = codes "?" }) ∷ []

serve_dns-discovery_example :
    serve_dns memory no_runes network
      (record { name = qualified service network; qtype = type_srv })
      entries
      world
    ≡ (
      wrote
          (reply
            (map (service_srv no_runes network) (labelled no_runes entries))
            (service_addresses no_runes network (labelled no_runes entries)))
          0,
      store,
    )
serve_dns-discovery_example =
    serve_dns-discovery no_runes network memory (pub_key, peer)
      ((codes "?", record peer { pub_key = codes "?" }) ∷ []) world
