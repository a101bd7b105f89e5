-- ===== src/Plugin/Monitor/Valid.antt =====
-- A poll keeps a cache valid.
use valon.Prelude.{
  ℕ, ◌≡◌, refl, ◌∙◌, inl, inr, Option, none, some, List, [], ◌∷◌, Bytes, arith, Option-cases,
}
use valon.Base64
use valon.Etcd.{Etcd, KeyValue}
use valon.Plugin.Cache
use valon.Plugin.Cache.{PeerInfo, PeerCache}
use valon.Plugin.Cache.Valid.{IsValid, IsValid-set, IsValid-update}
use valon.Plugin.World.{World}
use valon.Plugin.Monitor.{
  WgPeer, load_field, load_fields, bare_peer, observe, endpoint_of, observed, loaded, after_load,
  load_peer_from_etcd, process_peer, process_peers, poll_wireguard,
}

pub_key-observe :
    (peer : WgPeer) (k wg_ip endpoint : Bytes) (now : ℕ) (p : PeerInfo)
    → (observe peer k wg_ip endpoint now p).pub_key ≡ k
unfolding observe
pub_key-observe peer k wg_ip endpoint now p = ground arith

pub_key-load_field : (p : PeerInfo) (kv : KeyValue) → (load_field p kv).pub_key ≡ p.pub_key
unfolding load_field
pub_key-load_field p (key, value) = ground arith

pub_key-load_fields : (p : PeerInfo) (kvs : List KeyValue) → (load_fields p kvs).pub_key ≡ p.pub_key
unfolding load_fields
pub_key-load_fields p [] = refl
pub_key-load_fields p (kv ∷ kvs) =
    pub_key-load_fields (load_field p kv) kvs ∙ pub_key-load_field p kv

module _ {S : Type 0} (e : Etcd S) where
  observed-IsValid :
      (now : ℕ) (peer : WgPeer) (k wg_ip : Bytes) (w : World S)
      → IsValid w.cache
      → IsValid (observed e peer k wg_ip now w).cache
  unfolding observed
  observed-IsValid now peer k wg_ip w valid =
      IsValid-update w.cache k now valid (observe peer k wg_ip (endpoint_of peer) now)
        (λ p own. pub_key-observe peer k wg_ip (endpoint_of peer) now p)

  after_load-IsValid :
      (now : ℕ) (peer : WgPeer) (k wg_ip : Bytes) (w : World S) (r : Option (List KeyValue) × S)
      → IsValid w.cache
      → IsValid (after_load e peer k wg_ip now (loaded e k wg_ip now w r)).cache
  unfolding after_load loaded
  after_load-IsValid now peer k wg_ip w (none, s) valid = valid
  after_load-IsValid now peer k wg_ip w (some [], s) valid = valid
  after_load-IsValid now peer k wg_ip w (some (kv ∷ kvs), s) valid =
      observed-IsValid now peer k wg_ip
        (record {
          cache = Cache.set w.cache k (load_fields (bare_peer k wg_ip) (kv ∷ kvs)) now;
          etcd = s;
        })
        (IsValid-set w.cache k now valid (load_fields (bare_peer k wg_ip) (kv ∷ kvs))
          (pub_key-load_fields (bare_peer k wg_ip) (kv ∷ kvs)))

  process_peer-IsValid :
      (now : ℕ) (peer : WgPeer) (w : World S)
      → IsValid w.cache
      → IsValid (process_peer e now peer w).cache
  unfolding process_peer load_peer_from_etcd
  process_peer-IsValid now peer w valid =
      elim (Option-cases (Cache.get w.cache (Base64.encode peer.public_key))) [
        | inl missing ↦ rw (missing, process_peer) (after_load-IsValid now peer _ _ w _ valid)
        | inr (p, found) ↦ rw (found, process_peer) (observed-IsValid now peer _ _ w valid)
      ]

  process_peers-IsValid :
      (now : ℕ) (peers : List WgPeer) (w : World S)
      → IsValid w.cache
      → IsValid (process_peers e now peers w).cache
  unfolding process_peers
  process_peers-IsValid now [] w valid = valid
  process_peers-IsValid now (peer ∷ peers) w valid =
      process_peers-IsValid now peers (process_peer e now peer w)
        (process_peer-IsValid now peer w valid)

  pub poll-IsValid :
      (now : ℕ) (peers : Option (List WgPeer)) (w : World S)
      → IsValid w.cache
      → IsValid (poll_wireguard e now peers w).cache
  unfolding poll_wireguard
  poll-IsValid now none w valid = valid
  poll-IsValid now (some peers) w valid = process_peers-IsValid now peers w valid
