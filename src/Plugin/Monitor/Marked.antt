-- ===== src/Plugin/Monitor/Marked.antt =====
-- A poll takes no mark from a peer, and marks each peer that it loads.
use valon.Prelude.{
  ℕ, ◌≡◌, false, Option, none, some, List, [], ◌∷◌, Bytes, ◌≟◌, Option-cases, inl, inr,
}
use valon.Base64
use valon.Etcd.{Etcd, KeyValue}
use valon.Plugin.Cache
use valon.Plugin.Cache.{PeerInfo}
use valon.Plugin.Cache.Laws.{get-set}
use valon.Plugin.Cache.Marked.{Marked, Marked-update}
use valon.Plugin.World.{World}
use valon.Plugin.Monitor.{
  WgPeer, load_fields, bare_peer, observed, loaded, after_load, load_peer_from_etcd, process_peer,
  process_peers, poll_wireguard,
}

module _ {S : Type 0} (e : Etcd S) (q : Bytes) where
  Marked-observed :
      (peer : WgPeer) (k ip : Bytes) (now : ℕ) (w : World S)
      → (k ≟ q ≡ false → Marked q w.cache)
      → Marked q (observed e peer k ip now w).cache
  unfolding observed
  Marked-observed peer k ip now w h = Marked-update q w.cache k _ now h

  Marked-after_load :
      (peer : WgPeer) (k ip : Bytes) (now : ℕ) (w : World S) (r : Option (List KeyValue) × S)
      → Marked q w.cache
      → Marked q (after_load e peer k ip now (loaded e k ip now w r)).cache
  unfolding after_load loaded
  Marked-after_load peer k ip now w (none, s) h = h
  Marked-after_load peer k ip now w (some [], s) h = h
  Marked-after_load peer k ip now w (some (kv ∷ kvs), s) h =
      Marked-observed peer k ip now
        (record {
          cache = Cache.set w.cache k (load_fields (bare_peer k ip) (kv ∷ kvs)) now;
          etcd = s;
        })
        (λ other. rw (get-set w.cache k q (load_fields (bare_peer k ip) (kv ∷ kvs)) now, other) h)

  Marked-process_peer :
      (now : ℕ) (peer : WgPeer) (w : World S)
      → Marked q w.cache
      → Marked q (process_peer e now peer w).cache
  unfolding process_peer load_peer_from_etcd
  Marked-process_peer now peer w h =
      elim (Option-cases (Cache.get w.cache (Base64.encode peer.public_key))) [
        | inl missing ↦ rw (missing, process_peer) (Marked-after_load peer _ _ now w _ h)
        | inr (p, found) ↦ rw (found, process_peer) (Marked-observed peer _ _ now w (λ other. h))
      ]

  Marked-process_peers :
      (now : ℕ) (peers : List WgPeer) (w : World S)
      → Marked q w.cache
      → Marked q (process_peers e now peers w).cache
  unfolding process_peers
  Marked-process_peers now [] w h = h
  Marked-process_peers now (peer ∷ peers) w h =
      Marked-process_peers now peers (process_peer e now peer w) (Marked-process_peer now peer w h)

  pub Marked-poll :
      (now : ℕ) (peers : Option (List WgPeer)) (w : World S)
      → Marked q w.cache
      → Marked q (poll_wireguard e now peers w).cache
  unfolding poll_wireguard
  Marked-poll now none w h = h
  Marked-poll now (some peers) w h = Marked-process_peers now peers w h
