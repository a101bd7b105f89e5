-- ===== src/Plugin/Cache/Refines.antt =====
-- The cache implements a finite map that counts its keys: in any sequence of calls, every reply is
-- the one of the map.
use valon.Prelude.{
  inl, inr, ≟_iff, Bool-cases, ℕ, ◌+◌, ◌-◌, ◌≡◌, refl, ap, sym, ◌∙◌, Option, none, some, List, [],
  length, ◌∷◌, Bytes, if◌then◌else◌, ◌≟◌,
}
use mathlib.Core.Option
use std.Path.{fun_ext}
use valon.Text.{is_some}
use valon.Plugin.Cache.{
  PeerInfo, PeerCache, new_peer_cache, get, set, update, get_all, delete, count,
}
use valon.Plugin.Cache.Laws.{
  touched, IsMap, get-set, get-update, get-delete, IsMap-set, IsMap-update, IsMap-delete, count-set,
  count-update, count-delete,
}

-- a call of a method, with the key
pub data Call : Type 0 where
  call_get call_delete : Bytes → Call
  call_set : Bytes → PeerInfo → ℕ → Call
  call_update : Bytes → (PeerInfo → PeerInfo) → ℕ → Call
  call_count call_get_all : Call

pub data Reply : Type 0 where
  done : Reply
  peer : Option PeerInfo → Reply
  number : ℕ → Reply
  -- how many entries there are, and the one of each key: a map has no order
  entries : ℕ → (Bytes → Option PeerInfo) → Reply

unfoldable pub respond : Call → PeerCache → Reply × PeerCache
respond (call_get k) c = (peer (get c k), c)
respond (call_delete k) c = (done, delete c k)
respond (call_set k p now) c = (done, set c k p now)
respond (call_update k fn now) c = (done, update c k fn now)
respond call_count c = (number (count c), c)
respond call_get_all c = (entries (length (get_all c)) (get (get_all c)), c)

unfoldable pub replies : List Call → PeerCache → List Reply
unfolding respond
replies [] c = []
replies (call ∷ calls) c = (respond call c).0 ∷ replies calls (respond call c).1

-- the abstract cache: a function on keys, and how many keys have a peer
pub record PeerMap : Type 0 where
  pub peers : Bytes → Option PeerInfo
  pub size : ℕ

abbrev pub empty_map : PeerMap
empty_map = record { peers = λ k. none; size = 0 }

abbrev changed : (Bytes → Option PeerInfo) → Bytes → Option PeerInfo → Bytes → Option PeerInfo
changed peers k o j = if k ≟ j then o else peers j

unfoldable pub respond_map : Call → PeerMap → Reply × PeerMap
respond_map (call_get k) m = (peer (m.peers k), m)
respond_map (call_delete k) m = (
  done,
  record {
    peers = changed m.peers k none;
    size = if is_some (m.peers k) then m.size - 1 else m.size;
  },
)
respond_map (call_set k p now) m = (
  done,
  record {
    peers = changed m.peers k (some (record p { updated_at = now }));
    size = if is_some (m.peers k) then m.size else m.size + 1;
  },
)
respond_map (call_update k fn now) m = (
  done,
  record { peers = changed m.peers k (Option.map (touched fn now) (m.peers k)); size = m.size },
)
respond_map call_count m = (number m.size, m)
respond_map call_get_all m = (entries m.size m.peers, m)

unfoldable pub map_replies : List Call → PeerMap → List Reply
unfolding respond_map
map_replies [] m = []
map_replies (call ∷ calls) m = (respond_map call m).0 ∷ map_replies calls (respond_map call m).1

record Represents (c : PeerCache) (m : PeerMap) : Type 0 where
  pub is_map : IsMap c
  pub same_peers : (k : Bytes) → get c k ≡ m.peers k
  pub same_size : count c ≡ m.size

Represents-respond :
    (call : Call) (c : PeerCache) (m : PeerMap)
    → Represents c m
    → ((respond call c).0 ≡ (respond_map call m).0)
      × Represents (respond call c).1 (respond_map call m).1
unfolding respond respond_map count
Represents-respond (call_get k) c m h = (ap peer (h.same_peers k), h)
Represents-respond call_count c m h = (ap number h.same_size, h)
Represents-respond call_get_all c m h =
    (ap (λ n. entries n (get c)) h.same_size ∙ ap (entries m.size) (fun_ext h.same_peers), h)
Represents-respond (call_delete k) c m h = (
  refl,
  record {
    is_map = IsMap-delete c k h.is_map;
    same_peers =
        λ j. get-delete c k j h.is_map ∙ ap (λ o. if k ≟ j then none else o) (h.same_peers j);
    same_size = count-delete c k ∙ simp (h.same_peers k, h.same_size) refl;
  },
)
Represents-respond (call_set k p now) c m h = (
  refl,
  record {
    is_map = IsMap-set c k p now h.is_map;
    same_peers = λ j.
        get-set c k j p now
        ∙ ap (λ o. if k ≟ j then some (record p { updated_at = now }) else o) (h.same_peers j);
    same_size = count-set c k p now ∙ simp (h.same_peers k, h.same_size) refl;
  },
)
Represents-respond (call_update k fn now) c m h = (
  refl,
  record {
    is_map = IsMap-update c k fn now h.is_map;
    same_peers = λ j. get-update c k j fn now ∙ elim (Bool-cases (k ≟ j)) [
      | inl same ↦ rw same (
          ap (Option.map (touched fn now)) (h.same_peers j ∙ ap m.peers (sym ((≟_iff k j).0 same))))
      | inr other ↦ rw other (h.same_peers j)
    ];
    same_size = count-update c k fn now ∙ h.same_size;
  },
)

replies-map :
    (calls : List Call) (c : PeerCache) (m : PeerMap)
    → Represents c m
    → replies calls c ≡ map_replies calls m
unfolding replies map_replies
replies-map [] c m h = refl
replies-map (call ∷ calls) c m h =
    let (reply, rest) = Represents-respond call c m h in
    ap (λ r. r ∷ replies calls (respond call c).1) reply
    ∙ ap (◌∷◌ (respond_map call m).0)
        (replies-map calls (respond call c).1 (respond_map call m).1 rest)

-- From an empty cache, any sequence of calls of the methods gives reply by reply what a finite map
-- gives that keeps the number of its keys; the reply of GetAll is what its entries are when it is
-- called, how many and which for each key.
pub replies-map_replies :
    (calls : List Call) → replies calls new_peer_cache ≡ map_replies calls empty_map
unfolding get count
replies-map_replies calls =
    replies-map calls new_peer_cache empty_map
      (record { is_map = tt; same_peers = λ k. refl; same_size = refl })
