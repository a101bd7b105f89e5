-- ===== src/Plugin/Cache.antt =====
-- coredns-plugin/valon/cache.go. The map of pointers is a list of entries with distinct keys; no
-- two keys share a `PeerInfo`. The locks make each method one step. A time is a number, 0 the zero
-- time, and `now` is what `time.Now()` returns in a call.
pub mod Laws
pub mod Marked
pub mod Valid
pub mod Refines
use valon.Prelude.{
  ℕ, Bool, true, Option, none, some, List, [], ◌∷◌, Bytes, length, if◌then◌else◌, ◌≟◌,
}

pub record PeerInfo : Type 0 where
  pub pub_key : Bytes
  pub wg_ip : Bytes
  pub lan_endpoint : Bytes
  pub nat_endpoint : Bytes
  pub last_handshake : ℕ
  pub updated_at : ℕ
  pub dirty : Bool

abbrev pub PeerCache : Type 0
PeerCache = List (Bytes × PeerInfo)

abbrev pub new_peer_cache : PeerCache
new_peer_cache = []

unfoldable pub get : PeerCache → Bytes → Option PeerInfo
get [] pubkey = none
get ((k, p) ∷ c) pubkey = if k ≟ pubkey then some p else get c pubkey

-- c.peers[pubkey] = info
unfoldable pub store : PeerCache → Bytes → PeerInfo → PeerCache
store [] pubkey info = (pubkey, info) ∷ []
store ((k, p) ∷ c) pubkey info = if k ≟ pubkey then (k, info) ∷ c else (k, p) ∷ store c pubkey info

unfoldable pub set : PeerCache → Bytes → PeerInfo → ℕ → PeerCache
unfolding store
set c pubkey info now = store c pubkey (record info { updated_at = now })

-- The function is applied only to a peer that is there.
unfoldable pub update : PeerCache → Bytes → (PeerInfo → PeerInfo) → ℕ → PeerCache
update [] pubkey fn now = []
update ((k, p) ∷ c) pubkey fn now =
    if k ≟ pubkey
    then (k, record (fn p) { updated_at = now; dirty = true }) ∷ c
    else (k, p) ∷ update c pubkey fn now

-- the copy of the map; a range over it may come in any order
abbrev pub get_all : PeerCache → List (Bytes × PeerInfo)
get_all c = c

unfoldable pub delete : PeerCache → Bytes → PeerCache
delete [] pubkey = []
delete ((k, p) ∷ c) pubkey = if k ≟ pubkey then c else (k, p) ∷ delete c pubkey

unfoldable pub count : PeerCache → ℕ
count c = length c
