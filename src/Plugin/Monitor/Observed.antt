-- ===== src/Plugin/Monitor/Observed.antt =====
-- What a poll of WireGuard leaves in the cache.
use valon.Prelude.{
  ℕ, ◌≡◌, refl, ap, ◌∙◌, inl, inr, true, Option, none, some, List, [], ◌∷◌, Bytes, if◌then◌else◌,
  ◌≟◌, ≟_iff, ≟_refl, arith, Bool-cases,
}
use valon.Text.{has_prefix}
use valon.Base64
use valon.Etcd.{Etcd, IsEtcd, KeyValue, find}
use valon.Plugin.Cache
use valon.Plugin.Cache.{PeerInfo, PeerCache}
use valon.Plugin.Cache.Laws.{touched, get-update}
use valon.Plugin.World.{World}
use valon.Plugin.Monitor.{
  WgPeer, extract_wg_ip, peer_prefix, observe, endpoint_of, load_peer_from_etcd, loaded, observed,
  after_load, process_peer,
}

abbrev pub unless_nil : Bytes → Bytes → Bytes
unless_nil value old = if value ≟ [] then old else value

-- The peer after a poll: what WireGuard reports of it; the LAN endpoint is kept.
abbrev pub seen_peer : WgPeer → ℕ → PeerInfo → PeerInfo
seen_peer peer now p = record {
  pub_key = Base64.encode peer.public_key;
  wg_ip = unless_nil (extract_wg_ip peer.allowed_ips) p.wg_ip;
  lan_endpoint = p.lan_endpoint;
  nat_endpoint = unless_nil (endpoint_of peer) p.nat_endpoint;
  last_handshake = peer.last_handshake_time;
  updated_at = now;
  dirty = true;
}

touched-observe :
    (peer : WgPeer) (now : ℕ) (p : PeerInfo)
    → touched
        (observe peer
          (Base64.encode peer.public_key)
          (extract_wg_ip peer.allowed_ips)
          (endpoint_of peer)
          now)
        now
        p
      ≡ seen_peer peer now p
unfolding observe
touched-observe peer now p =
    ground (arith, ≟_iff p.nat_endpoint (endpoint_of peer), ≟_iff (endpoint_of peer) [])

module _ {S : Type 0} (e : Etcd S) where
  -- A peer of the device that is in the cache gets the key, the address, the endpoint and the
  -- handshake that WireGuard reports; an address or endpoint that it does not report stays, and so
  -- does the LAN endpoint. The peer is marked for the next synchronisation. No other peer changes,
  -- and etcd is not asked.
  pub process_peer-known :
      (now : ℕ) (peer : WgPeer) (w : World S) (p : PeerInfo)
      → Cache.get w.cache (Base64.encode peer.public_key) ≡ some p
      → ((j : Bytes)
          → Cache.get (process_peer e now peer w).cache j ≡ (
              if Base64.encode peer.public_key ≟ j
              then some (seen_peer peer now p)
              else Cache.get w.cache j))
        × ((process_peer e now peer w).etcd ≡ w.etcd)
  unfolding process_peer observed
  process_peer-known now peer w p found =
      rw (found, process_peer)
        (
          λ j.
              get-update w.cache (Base64.encode peer.public_key) j _ now
              ∙ elim (Bool-cases (Base64.encode peer.public_key ≟ j)) [
                | inr other ↦ rw other
                | inl same ↦
                    let here : Cache.get w.cache j ≡ some p = rw (← (≟_iff _ j).0 same) found in
                    rw (same, here) (ap some (touched-observe peer now p))
              ],
          refl,
        )

  nothing_found : (kvs : List KeyValue) → ((j : Bytes) → find kvs j ≡ none) → kvs ≡ []
  nothing_found [] h = refl
  nothing_found ((k, v) ∷ kvs) h = let here = h k in absurd (ground (arith, ≟_refl k))

  cache-after_load :
      (peer : WgPeer) (pubkey wg_ip : Bytes) (now : ℕ) (w : World S)
      (r : Option (List KeyValue) × S)
      → ((kvs : List KeyValue) → r.0 ≡ some kvs → kvs ≡ [])
      → (after_load e peer pubkey wg_ip now (loaded e pubkey wg_ip now w r)).cache ≡ w.cache
  unfolding after_load loaded
  cache-after_load peer pubkey wg_ip now w (none, s) h = refl
  cache-after_load peer pubkey wg_ip now w (some [], s) h = refl
  cache-after_load peer pubkey wg_ip now w (some (kv ∷ kvs), s) h =
      let empty = h (kv ∷ kvs) refl in absurd cc

  outside :
      (laws : IsEtcd e) (p : Bytes) (s : S)
      → ((j : Bytes) → has_prefix j p ≡ true → laws.contents s j ≡ none)
      → (kvs : List KeyValue) → (e.get_prefix s p).0 ≡ some kvs
      → kvs ≡ []
  outside laws p s unknown kvs got = nothing_found kvs (λ j.
      laws.get_prefix_returns s p kvs got j ∙ elim (Bool-cases (has_prefix j p)) [
        | inl inside ↦ rw inside (unknown j inside)
        | inr other ↦ rw other
      ])

  -- A peer of the device that is neither in the cache nor in etcd is not added to the cache,
  -- whether etcd can be reached or not.
  process_peer-unknown :
      (laws : IsEtcd e) (now : ℕ) (peer : WgPeer) (w : World S)
      → Cache.get w.cache (Base64.encode peer.public_key) ≡ none
      → ((j : Bytes)
          → has_prefix j (peer_prefix (Base64.encode peer.public_key)) ≡ true
          → laws.contents w.etcd j ≡ none)
      → (process_peer e now peer w).cache ≡ w.cache
  unfolding process_peer load_peer_from_etcd
  process_peer-unknown laws now peer w missing unknown =
      rw (missing, process_peer)
        (cache-after_load peer _ _ now w
          (e.get_prefix w.etcd (peer_prefix (Base64.encode peer.public_key)))
          (outside laws _ w.etcd unknown))
