-- ===== src/Plugin/Handler/Lookup.antt =====
-- The names of a peer, and what a query for each of them returns.
use valon.Prelude.{
  ◌≢◌, ◌≡◌, refl, ◌∙◌, true, false, some, List, [], ◌∷◌, ◌++◌, append_assoc, Bytes, codes, ◌≟◌,
  arith, All,
}
use valon.Text.{last_index_byte, has_byte, Unicode, has_prefix, has_suffix, to_lower}
use valon.Text.Laws.{has_prefix-append, trim_prefix-append, trim_suffix-append, has_suffix-append}
use valon.Base32
use valon.Base32.RoundTrip.{IsByte}
use valon.Base64
use valon.Net.HostPort.{split_host_port}
use valon.Net.Addr.{parse_ip}
use valon.Etcd.{Etcd}
use valon.Plugin.Encoding.{dns_label_to_pubkey}
use valon.Plugin.Encoding.Labels.{IsLabelByte, All-label}
use valon.Plugin.Encoding.RoundTrip.{dns_label_to_pubkey-label}
use valon.Plugin.Cache
use valon.Plugin.Cache.{PeerInfo, PeerCache}
use valon.Plugin.World.{World, Config}
use valon.Plugin.Message.{Query, wrote, reply, type_a, type_srv}
use valon.Plugin.Handler.{
  Target, direct, lan, nated, read_target, relative_name, label_of, target_ip, overlay_ip,
  endpoint_ip, a_record, answer_ip, answer_a, handle_a_target, handle_a, handle_srv, serve_dns,
}

-- `<name>.<zone>`
abbrev pub qualified : Bytes → Config → Bytes
qualified name v = name ++ (codes "." ++ v.zone)

-- the name that asks for a target
abbrev pub name_of : Target → Bytes
name_of (direct l) = l
name_of (lan l) = codes "lan." ++ l
name_of (nated l) = codes "nated." ++ l

-- the label of a key of any bytes
abbrev pub key_label : Unicode → Bytes → Bytes
key_label u key = to_lower u (Base32.encode key)

pub relative_name-qualified :
    (name : Bytes) (v : Config) → relative_name (qualified name v) v.zone ≡ name
unfolding relative_name
relative_name-qualified name v =
    rw (← append_assoc name (codes ".") v.zone)
      (rw (trim_suffix-append (name ++ codes ".") v.zone) (trim_suffix-append name (codes ".")))

has_suffix-qualified : (name : Bytes) (v : Config) → has_suffix (qualified name v) v.zone ≡ true
has_suffix-qualified name v =
    rw (← append_assoc name (codes ".") v.zone) (has_suffix-append (name ++ codes ".") v.zone)

-- a label has no dot, so nothing that ends in a dot is a prefix of it
no_dotted_prefix : (l p : Bytes) → All IsLabelByte l → has_prefix l (p ++ codes ".") ≡ false
unfolding has_prefix
no_dotted_prefix [] [] h = refl
no_dotted_prefix [] (c ∷ p) h = refl
no_dotted_prefix (b ∷ l) [] h = ground arith
no_dotted_prefix (b ∷ l) (c ∷ p) h = ground (arith, no_dotted_prefix l p h.1)

pub read_target-direct :
    (l : Bytes)
    → has_prefix l (codes "lan.") ≡ false
    → has_prefix l (codes "nated.") ≡ false
    → read_target l ≡ direct l
unfolding read_target
read_target-direct l h k = rw (h, k)

read_target-lan : (l : Bytes) → read_target (codes "lan." ++ l) ≡ lan l
unfolding read_target
read_target-lan l = rw (has_prefix-append (codes "lan.") l, trim_prefix-append (codes "lan.") l)

nated-not_lan : (l : Bytes) → has_prefix (codes "nated." ++ l) (codes "lan.") ≡ false
unfolding has_prefix
nated-not_lan l = refl

read_target-nated : (l : Bytes) → read_target (codes "nated." ++ l) ≡ nated l
unfolding read_target
read_target-nated l =
    rw
      (nated-not_lan l, has_prefix-append (codes "nated.") l, trim_prefix-append (codes "nated.") l)

pub read_target-name_of : (t : Target) → All IsLabelByte (label_of t) → read_target (name_of t) ≡ t
read_target-name_of (direct l) h =
    read_target-direct l (no_dotted_prefix l (codes "lan") h) (no_dotted_prefix l (codes "nated") h)
read_target-name_of (lan l) h = read_target-lan l
read_target-name_of (nated l) h = read_target-nated l

-- The IP of an endpoint of the form host:port.
abbrev pub EndsAt : Bytes → Bytes → Type 0
EndsAt endpoint ip =
    (host : Bytes) × (port : Bytes) × (split_host_port endpoint ≡ some (host, port))
    × (parse_ip host ≡ some ip)

-- The address that a peer has under a name: of the overlay, or of one of its endpoints.
abbrev pub HasAddress : Target → PeerInfo → Bytes → Type 0
HasAddress (direct l) p ip = parse_ip p.wg_ip ≡ some ip
HasAddress (lan l) p ip = EndsAt p.lan_endpoint ip
HasAddress (nated l) p ip = EndsAt p.nat_endpoint ip

pub overlay_ip-parse_ip : (s ip : Bytes) → parse_ip s ≡ some ip → overlay_ip s ≡ some ip
unfolding overlay_ip parse_ip has_byte ◌≟◌
overlay_ip-parse_ip [] ip h = h
overlay_ip-parse_ip (c ∷ s) ip h = h

pub parse_ip-ne_nil : (s ip : Bytes) → parse_ip s ≡ some ip → s ≢ []
unfolding parse_ip has_byte
parse_ip-ne_nil [] ip h e = absurd cc
parse_ip-ne_nil (c ∷ s) ip h e = cc

endpoint_ip-EndsAt : (s ip : Bytes) → EndsAt s ip → endpoint_ip s ≡ some ip
unfolding endpoint_ip split_host_port last_index_byte ◌≟◌
endpoint_ip-EndsAt [] ip (host, port, parts, parsed) = absurd cc
endpoint_ip-EndsAt (c ∷ s) ip (host, port, parts, parsed) = rw parts parsed

target_ip-HasAddress :
    (t : Target) (p : PeerInfo) (ip : Bytes) → HasAddress t p ip → target_ip t p ≡ some ip
unfolding target_ip
target_ip-HasAddress (direct l) p ip h = overlay_ip-parse_ip p.wg_ip ip h
target_ip-HasAddress (lan l) p ip h = endpoint_ip-EndsAt p.lan_endpoint ip h
target_ip-HasAddress (nated l) p ip h = endpoint_ip-EndsAt p.nat_endpoint ip h

module _ {S : Type 0} (e : Etcd S) (u : Unicode) (v : Config) where
  -- a query of a type, as the handler dispatches it
  pub serve_dns-a :
      (name : Bytes) (entries : List (Bytes × PeerInfo)) (w : World S)
      → serve_dns e u v (record { name = qualified name v; qtype = type_a }) entries w
        ≡ handle_a_target e u v
            (record { name = qualified name v; qtype = type_a })
            (read_target name)
            w
  unfolding serve_dns handle_a
  serve_dns-a name entries w = rw (has_suffix-qualified name v, relative_name-qualified name v)

  pub serve_dns-srv :
      (name : Bytes) (entries : List (Bytes × PeerInfo)) (w : World S)
      → serve_dns e u v (record { name = qualified name v; qtype = type_srv }) entries w ≡ (
        handle_srv u v (record { name = qualified name v; qtype = type_srv }) w.cache entries,
        w.etcd,
      )
  unfolding serve_dns
  serve_dns-srv name entries w = rw (has_suffix-qualified name v)

  handle_a_target-known :
      (q : Query) (t : Target) (k ip : Bytes) (p : PeerInfo) (w : World S)
      → dns_label_to_pubkey u (label_of t) ≡ some k
      → Cache.get w.cache k ≡ some p
      → target_ip t p ≡ some ip
      → handle_a_target e u v q t w ≡ (wrote (reply (a_record q.name ip ∷ []) []) 0, w.etcd)
  unfolding handle_a_target answer_a answer_ip
  handle_a_target-known q t k ip p w decodes cached at_ip =
      rw (decodes, handle_a_target) (rw cached (rw (at_ip, answer_ip)))

  -- For a peer in the cache, the query for its label is answered with its overlay address, and the
  -- queries with lan. and nated. in front with the address of that endpoint, where the address
  -- asked for is an IP: one A record, which has no address if that is no IPv4 address. etcd is not
  -- asked.
  pub serve_dns-peer :
      (key : Bytes) (t : Target) (ip : Bytes) (p : PeerInfo) (entries : List (Bytes × PeerInfo))
      (w : World S)
      → All IsByte key
      → label_of t ≡ key_label u key
      → Cache.get w.cache (Base64.encode key) ≡ some p
      → HasAddress t p ip
      → serve_dns e u v (record { name = qualified (name_of t) v; qtype = type_a }) entries w
        ≡ (wrote (reply (a_record (qualified (name_of t) v) ip ∷ []) []) 0, w.etcd)
  serve_dns-peer key t ip p entries w bytes names cached address =
      serve_dns-a (name_of t) entries w
      ∙ rw (read_target-name_of t (rw names (All-label u key bytes))) (
          handle_a_target-known _ t (Base64.encode key) ip p w
            (rw names (dns_label_to_pubkey-label u key bytes)) cached
            (target_ip-HasAddress t p ip address))
