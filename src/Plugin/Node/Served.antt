-- ===== src/Plugin/Node/Served.antt =====
-- What one node has marked for the synchronisation, another node answers.
use valon.Prelude.{
  ℕ, ◌≡◌, ◌≢◌, if◌then◌else◌, refl, ap, sym, ◌∙◌, true, some, List, [], ◌∷◌, Bytes, ≟_ne, All,
  Bool-cases, inl, inr,
}
use valon.Text.{Unicode, last_index_byte}
use valon.Net.HostPort.{split_host_port}
use valon.Base32.RoundTrip.{IsByte}
use valon.Base64
use valon.Etcd.{Etcd, IsEtcd}
use valon.Etcd.Fields.{field_name}
use valon.Etcd.Keys.{peer_key}
use valon.Plugin.Cache
use valon.Plugin.Cache.{PeerInfo}
use valon.Plugin.Cache.Laws.{IsMap}
use valon.Plugin.Handler.{lan, a_record, serve_dns}
use valon.Plugin.Handler.Lookup.{qualified, name_of, key_label, EndsAt, serve_dns-peer}
use valon.Plugin.Load.{load_from_etcd}
use valon.Plugin.Load.Keys.{IsUnmarked}
use valon.Plugin.Load.OnlyPeers.{HasOnlyPeers, HasOnlyPeers-write_all, KeysOfPeers-peer_ops}
use valon.Plugin.Load.RoundTrip.{fresh, load_from_etcd-fields}
use valon.Plugin.Message.{wrote, reply, type_a}
use valon.Plugin.Sync.{peer_ops, write_peer_to_etcd, sync_peer, sync_to_etcd}
use valon.Plugin.Sync.Written.{write_peer_to_etcd-write_all}
use valon.Plugin.Sync.Progress.{
  round_answered, both_answered, write_answered, synced, etcd-sync_peer, sync_to_etcd-contents,
}
use valon.Plugin.World.{World, Config}
use valon.Plugin.Cache.Marked.{is_marked, Marked}
use valon.Plugin.Cache.Valid.{IsValid}
use valon.Plugin.Node.{Reaches}
use valon.Plugin.Node.Progress.{Reaches-Marked}
use valon.Plugin.Handler.Absent.{asked_of, is_kept-asked_of}
use valon.Plugin.Handler.{Target, direct, nated, label_of}
use valon.Plugin.Handler.Lookup.{HasAddress, parse_ip-ne_nil}
use valon.Plugin.Load.Fields.{field_of, held-some}

-- the keys of the entries have none of the marks of the fields
abbrev pub AllUnmarked : List (Bytes × PeerInfo) → Type 0
AllUnmarked [] = Unit
AllUnmarked ((k, p) ∷ entries) = IsUnmarked k × AllUnmarked entries

not_nil-EndsAt : (s ip : Bytes) → EndsAt s ip → s ≢ []
unfolding split_host_port last_index_byte
not_nil-EndsAt [] ip (host, port, parts, parsed) e = absurd cc
not_nil-EndsAt (c ∷ s) ip h e = cc

-- An address is read from a field that is not empty, and from no other.
address_field :
    (t : Target) (p : PeerInfo) (ip : Bytes) → HasAddress t p ip → field_of (asked_of t) p ≢ []
address_field (direct l) p ip h = parse_ip-ne_nil p.wg_ip ip h
address_field (lan l) p ip h = not_nil-EndsAt p.lan_endpoint ip h
address_field (nated l) p ip h = not_nil-EndsAt p.nat_endpoint ip h

HasAddress-field :
    (t : Target) (p q : PeerInfo) (ip : Bytes)
    → field_of (asked_of t) q ≡ field_of (asked_of t) p
    → HasAddress t p ip
    → HasAddress t q ip
HasAddress-field (direct l) p q ip same h = rw same h
HasAddress-field (lan l) p q ip same h = rw same h
HasAddress-field (nated l) p q ip same h = rw same h

module _ {S : Type 0} (e : Etcd S) (laws : IsEtcd e) where
  HasOnlyPeers-sync_peer :
      (now : ℕ) (k : Bytes) (p : PeerInfo) (w : World S)
      → IsUnmarked k
      → (if p.dirty then (write_peer_to_etcd e k p w.etcd).0 else true) ≡ true
      → HasOnlyPeers (laws.contents w.etcd)
      → HasOnlyPeers (laws.contents (sync_peer e now k p w).etcd)
  unfolding valon.Text.has_prefix valon.Plugin.Sync.write_peer_to_etcd peer_ops
  HasOnlyPeers-sync_peer now k p w hk answers only =
      rw (etcd-sync_peer e now k p w) (elim (Bool-cases p.dirty) [
        | inr clean ↦ rw clean only
        | inl dirty ↦
            rw
              (
                dirty,
                write_peer_to_etcd-write_all e laws k p w.etcd
                    (write_answered p.dirty _ answers dirty),
              )
              (HasOnlyPeers-write_all (laws.contents w.etcd) (peer_ops k p)
                (KeysOfPeers-peer_ops k p hk) only)
      ])

  HasOnlyPeers-sync_to_etcd :
      (now : ℕ) (entries : List (Bytes × PeerInfo)) (w : World S)
      → AllUnmarked entries
      → round_answered e now entries w ≡ true
      → HasOnlyPeers (laws.contents w.etcd)
      → HasOnlyPeers (laws.contents (sync_to_etcd e now entries w).etcd)
  unfolding sync_to_etcd round_answered
  HasOnlyPeers-sync_to_etcd now [] w h answers only = only
  HasOnlyPeers-sync_to_etcd now ((k, p) ∷ entries) w h answers only =
      let (first, rest) = both_answered p.dirty (write_peer_to_etcd e k p w.etcd).0 _ answers in
      HasOnlyPeers-sync_to_etcd now entries (sync_peer e now k p w) h.1 rest
        (HasOnlyPeers-sync_peer now k p w h.0 first only)

  module _ (u : Unicode) (v : Config) (y : World S) (p : PeerInfo) (t : Target) (key ip : Bytes)
      (bytes : All IsByte key) (names : label_of t ≡ key_label u key)
      (cached : Cache.get y.cache (Base64.encode key) ≡ some p) (address : HasAddress t p ip)
      (is_unmarked : IsUnmarked (Base64.encode key)) (only : HasOnlyPeers (laws.contents y.etcd))
      (round later : ℕ) (entries others : List (Bytes × PeerInfo))
      (all_unmarked : AllUnmarked entries) (answers : round_answered e round entries y ≡ true)
      (map : IsMap entries)
      (listed : Cache.get entries (Base64.encode key) ≡ Cache.get y.cache (Base64.encode key))
      (loads : (load_from_etcd e later (fresh (sync_to_etcd e round entries y).etcd)).0
        ≡ true) where
    pub sync_served :
        p.dirty ≡ true
        → (serve_dns e u v
            (record { name = qualified (name_of t) v; qtype = type_a })
            others
            (load_from_etcd e later (fresh (sync_to_etcd e round entries y).etcd)).1).0
          ≡ wrote (reply (a_record (qualified (name_of t) v) ip ∷ []) []) 0
    sync_served dirty =
        let k = Base64.encode key in
        let f = asked_of t in
        let synced_etcd = (sync_to_etcd e round entries y).etcd in
        let old = laws.contents y.etcd (peer_key k (field_name f)) in
        let not_nil = address_field t p ip address in
        let written_field : synced f (some p) old ≡ some (field_of f p) =
          rw (≟_ne (field_of f p) [] not_nil, dirty) refl in
        let stored : laws.contents synced_etcd (peer_key k (field_name f)) ≡ some (field_of f p) =
          sync_to_etcd-contents e laws round k f entries y answers map
          ∙ ap (λ o. synced f o old) (listed ∙ cached)
          ∙ written_field in
        let (q, found, same) =
          held-some f (Cache.get (load_from_etcd e later (fresh synced_etcd)).1.cache k)
            (field_of f p) not_nil
            (load_from_etcd-fields e laws later synced_etcd k f
                (HasOnlyPeers-sync_to_etcd round entries y all_unmarked answers only) is_unmarked
                (is_kept-asked_of t) loads
              ∙ rw stored refl) in
        ap (λ x. x.0)
          (serve_dns-peer e u v key t ip q others _ bytes names found
            (HasAddress-field t p q ip same address))

    -- What a node has learned of a peer is served by every node in the end: once a peer is marked
    -- for the synchronisation, or not in the cache, and the plugin has run on in any way, then after
    -- its next round of the synchronisation and a start of the plugin on another node that loads
    -- etcd, that node answers the queries for the label of the peer, alone or with lan. or nated. in
    -- front, with the address that the first node has in its cache, if it has one there. The peer is
    -- among the entries of the round as it is in the cache, no key stands twice in them, and their
    -- keys, and those of the peers in etcd, have none of the texts `/wg_ip`, `/alias` and
    -- `/endpoints`; etcd answers the writes of the round; the cache is valid at the beginning.
    pub Reaches_served :
        (x : World S)
        → IsValid x.cache
        → Marked (Base64.encode key) x.cache
        → Reaches e u v x y
        → (serve_dns e u v
            (record { name = qualified (name_of t) v; qtype = type_a })
            others
            (load_from_etcd e later (fresh (sync_to_etcd e round entries y).etcd)).1).0
          ≡ wrote (reply (a_record (qualified (name_of t) v) ip ∷ []) []) 0
    Reaches_served x valid marked run =
        sync_served (
          ap is_marked (sym cached) ∙ Reaches-Marked e (Base64.encode key) u v x y run valid marked)
