-- ===== src/Plugin/Handler/Reply.antt =====
-- What holds of every reply.
use valon.Prelude.{
  ℕ, ◌≡◌, refl, ◌⊎◌, inl, inr, true, Option, none, some, List, [], ◌∷◌, ◌++◌, Bytes, codes, ◌==◌,
  ◌≟◌, All, All-append, Bool-cases, Option-cases,
}
use valon.Text.{Unicode, has_prefix, has_suffix, trim_prefix}
use valon.Net.HostPort.{split_host_port}
use valon.Net.Addr.{parse_ip}
use valon.Etcd.{Etcd}
use valon.Plugin.Encoding.{dns_label_to_pubkey, pubkey_to_dns_label}
use valon.Plugin.Cache
use valon.Plugin.Cache.{PeerInfo, PeerCache}
use valon.Plugin.World.{World, Config}
use valon.Plugin.Message.{
  ResourceRecord, a, srv, cname, Query, Served, wrote, passed_on, type_a, type_srv,
}
use valon.Plugin.Handler.{
  nxdomain, Target, read_target, relative_name, label_of, target_ip, overlay_ip, a_if, answer_ip,
  answer_a, return_cname, is_endpoint, lookup_alias, or_cname, handle_a_target, handle_a, srv_parts,
  endpoint_records, unless_empty, answer_srv, service_records, service_loop,
  handle_service_discovery, handle_srv, serve_dns,
}

abbrev pub ttl : ResourceRecord → ℕ
ttl (a name t ip) = t
ttl (srv name t priority weight port target) = t
ttl (cname name t target) = t

abbrev pub Short : List ResourceRecord → Type 0
Short = All (λ r. ttl r ≡ 2)

abbrev pub IsReply : Served → Type 0
IsReply passed_on = Unit
IsReply (wrote m code) =
    (m.rcode ≡ code)
    × (m.authoritative ≡ true)
    × Short m.answer
    × Short m.extra
    × ((code ≡ 0) ⊎ ((code ≡ 3) × (m.answer ≡ []) × (m.extra ≡ [])))

nxdomain-IsReply : IsReply nxdomain
unfolding nxdomain
nxdomain-IsReply = (refl, refl, tt, tt, inr (refl, refl, refl))

a_if-Short : (name : Bytes) (ip : Option Bytes) → Short (a_if name ip)
a_if-Short name none = tt
a_if-Short name (some ip) = (refl, tt)

answer_ip-IsReply : (name : Bytes) (ip : Option Bytes) → IsReply (answer_ip name ip)
unfolding answer_ip
answer_ip-IsReply name none = nxdomain-IsReply
answer_ip-IsReply name (some ip) = (refl, refl, (refl, tt), tt, inl refl)

answer_a-IsReply : (name : Bytes) (t : Target) (o : Option PeerInfo) → IsReply (answer_a name t o)
unfolding answer_a
answer_a-IsReply name t none = nxdomain-IsReply
answer_a-IsReply name t (some p) = answer_ip-IsReply name (target_ip t p)

return_cname-IsReply :
    (u : Unicode) (v : Config) (c : PeerCache) (q : Query) (label : Bytes)
    → IsReply (return_cname u v c q label)
unfolding return_cname
return_cname-IsReply u v c q label = elim (Option-cases (dns_label_to_pubkey u label)) [
  | inl bad ↦ rw (bad, IsReply) (refl, refl, (refl, tt), tt, inl refl)
  | inr (k, good) ↦ rw (good, IsReply) (refl, refl, (refl, a_if-Short _ _), tt, inl refl)
]

module _ {S : Type 0} (e : Etcd S) (u : Unicode) (v : Config) where
  or_cname-IsReply : (c : PeerCache) (q : Query) (r : Bytes × S) → IsReply (or_cname e u v c q r).0
  unfolding or_cname
  or_cname-IsReply c q (label, s) = elim (Bool-cases (label ≟ [])) [
    | inl empty ↦ rw empty nxdomain-IsReply
    | inr found ↦ rw found (return_cname-IsReply u v c q label)
  ]

  handle_a_target-IsReply :
      (q : Query) (t : Target) (w : World S) → IsReply (handle_a_target e u v q t w).0
  unfolding handle_a_target
  handle_a_target-IsReply q t w = elim (Option-cases (dns_label_to_pubkey u (label_of t))) [
    | inr (k, good) ↦ rw (good, IsReply) (answer_a-IsReply q.name t (Cache.get w.cache k))
    | inl bad ↦
        rw (bad, IsReply)
          (elim (Bool-cases (is_endpoint t)) [
            | inl endpoint ↦ rw endpoint nxdomain-IsReply
            | inr name ↦
                rw name (or_cname-IsReply w.cache q (lookup_alias e u v (label_of t) w.etcd))
          ])
  ]

abbrev BothShort : List ResourceRecord × List ResourceRecord → Type 0
BothShort parts = Short parts.0 × Short parts.1

endpoint_records-Short :
    (name target : Bytes) (priority : ℕ) (endpoint : Bytes)
    → BothShort (endpoint_records name target priority endpoint)
unfolding endpoint_records
endpoint_records-Short name target priority endpoint = elim (Bool-cases (endpoint ≟ [])) [
  | inl empty ↦ rw empty (tt, tt)
  | inr set ↦ rw set (parts (split_host_port endpoint))
]
  where
    parts : (o : Option (Bytes × Bytes)) → BothShort (srv_parts name target priority o)
    parts none = (tt, tt)
    parts (some (host, port)) = ((refl, tt), a_if-Short target (parse_ip host))

unless_empty-IsReply :
    (answer extra : List ResourceRecord)
    → Short answer
    → Short extra
    → IsReply (unless_empty answer extra)
unfolding unless_empty
unless_empty-IsReply [] extra h k = nxdomain-IsReply
unless_empty-IsReply (r ∷ rs) extra h k = (refl, refl, h, k, inl refl)

answer_srv-IsReply :
    (v : Config) (name label : Bytes) (o : Option PeerInfo) → IsReply (answer_srv v name label o)
unfolding answer_srv
answer_srv-IsReply v name label none = nxdomain-IsReply
answer_srv-IsReply v name label (some p) =
    let lan =
      endpoint_records-Short name (codes "lan." ++ (label ++ (codes "." ++ v.zone))) 0
        p.lan_endpoint in
    let nat =
      endpoint_records-Short name (codes "nated." ++ (label ++ (codes "." ++ v.zone))) 10
        p.nat_endpoint in
    unless_empty-IsReply _ _ (All-append (λ r. ttl r ≡ 2) _ _ lan.0 nat.0)
      (All-append (λ r. ttl r ≡ 2) _ _ lan.1 nat.1)

module _ (u : Unicode) (v : Config) where
  service_loop-Short :
      (name : Bytes) (entries : List (Bytes × PeerInfo)) → BothShort (service_loop u v name entries)
  unfolding service_loop
  service_loop-Short name [] = (tt, tt)
  service_loop-Short name ((k, p) ∷ entries) =
      let rest = service_loop-Short name entries in
      let here = records (pubkey_to_dns_label u p.pub_key) in
      (All-append (λ r. ttl r ≡ 2) _ _ here.0 rest.0, All-append (λ r. ttl r ≡ 2) _ _ here.1 rest.1)
    where
      records : (o : Option Bytes) → BothShort (service_records v name p o)
      records none = (tt, tt)
      records (some label) = ((refl, tt), a_if-Short _ (overlay_ip p.wg_ip))

  service_discovery-IsReply :
      (name : Bytes) (entries : List (Bytes × PeerInfo))
      → IsReply (handle_service_discovery u v name entries)
  unfolding handle_service_discovery
  service_discovery-IsReply name [] = nxdomain-IsReply
  service_discovery-IsReply name (x ∷ entries) =
      let short = service_loop-Short name (x ∷ entries) in (refl, refl, short.0, short.1, inl refl)

  handle_srv-IsReply :
      (q : Query) (c : PeerCache) (entries : List (Bytes × PeerInfo))
      → IsReply (handle_srv u v q c entries)
  unfolding handle_srv
  handle_srv-IsReply q c entries =
      elim (Bool-cases (relative_name q.name v.zone ≟ codes "_valon._tcp")) [
        | inl service ↦ rw service (service_discovery-IsReply q.name entries)
        | inr peer ↦
            rw peer
              (elim (Bool-cases
                (has_prefix (relative_name q.name v.zone) (codes "_wireguard._udp."))) [
                  | inr other ↦ rw other nxdomain-IsReply
                  | inl wireguard ↦
                      rw wireguard
                        (elim (Option-cases (
                          dns_label_to_pubkey u (
                            trim_prefix (relative_name q.name v.zone)
                              (codes "_wireguard._udp.")))) [
                                | inl bad ↦ rw bad nxdomain-IsReply
                                | inr (k, good) ↦
                                    rw good (answer_srv-IsReply v q.name _ (Cache.get c k))
                              ])
                ])
      ]

-- Every reply is an authoritative message with the code that `ServeDNS` returns, success or
-- NXDOMAIN; its records live for two seconds, and NXDOMAIN comes with no record.
-- Every message that the plugin writes is authoritative and carries the code that is returned, which
-- is success or NXDOMAIN; its records live for two seconds, and with NXDOMAIN there is no record.
pub serve_dns-IsReply :
    {S : Type 0} (e : Etcd S) (u : Unicode) (v : Config) (q : Query)
    (entries : List (Bytes × PeerInfo)) (w : World S)
    → IsReply (serve_dns e u v q entries w).0
unfolding serve_dns handle_a
serve_dns-IsReply e u v q entries w = elim (Bool-cases (has_suffix q.name v.zone)) [
  | inr outside ↦ rw outside tt
  | inl inside ↦ rw inside (elim (Bool-cases (q.qtype == type_a)) [
    | inl is_a ↦
        rw is_a (handle_a_target-IsReply e u v q (read_target (relative_name q.name v.zone)) w)
    | inr not_a ↦ rw not_a (elim (Bool-cases (q.qtype == type_srv)) [
      | inl is_srv ↦ rw is_srv (handle_srv-IsReply u v q w.cache entries)
      | inr not_srv ↦ rw not_srv nxdomain-IsReply
    ])
  ])
]
