-- ===== src/Plugin/Cache/Marked.antt =====
-- The mark for the next synchronisation.
use valon.Prelude.{
  ℕ, ◌≡◌, refl, Bool, true, false, Option, none, some, Bytes, ◌≟◌, Bool-cases, inl, inr,
}
use mathlib.Core.Option
use valon.Plugin.Cache
use valon.Plugin.Cache.{PeerInfo, PeerCache}
use valon.Plugin.Cache.Laws.{touched, get-update}

-- A peer that is in the cache is marked.
abbrev pub is_marked : Option PeerInfo → Bool
is_marked none = true
is_marked (some p) = p.dirty

pub is_marked-touched :
    (fn : PeerInfo → PeerInfo) (now : ℕ) (o : Option PeerInfo)
    → is_marked (Option.map (touched fn now) o) ≡ true
is_marked-touched fn now none = refl
is_marked-touched fn now (some p) = refl

module _ (q : Bytes) where
  -- The peer is marked as long as it is in the cache.
  abbrev pub Marked : PeerCache → Type 0
  Marked c = is_marked (Cache.get c q) ≡ true

  -- only the key of the call can become another peer
  pub Marked-update :
      (c : PeerCache) (k : Bytes) (fn : PeerInfo → PeerInfo) (now : ℕ)
      → (k ≟ q ≡ false → Marked c)
      → Marked (Cache.update c k fn now)
  Marked-update c k fn now h = rw (get-update c k q fn now) (elim (Bool-cases (k ≟ q)) [
    | inl same ↦ rw same (is_marked-touched fn now (Cache.get c q))
    | inr other ↦ rw other (h other)
  ])
