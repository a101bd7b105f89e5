-- ===== src/Plugin/Cache/Laws.antt =====
-- The cache is a finite map: what each method changes, and that keys stay distinct.
use valon.Prelude.{
  ℕ, ◌+◌, ◌≡◌, ◌≢◌, ◌-◌, ◌<◌, refl, ap, sym, subst, ◌∙◌, ne_of_≟, ≟_ne, Bool, true, false, Option,
  none, some, [], ◌∷◌, Bytes, length, if◌then◌else◌, ◌≟◌, ≟_iff, arith, Bool-cases, inl, inr,
}
use valon.Text.Laws.{none_of_is_some}
use mathlib.Core.Option
use valon.Text.{is_some}
use valon.Plugin.Cache.{PeerInfo, PeerCache, get, store, set, update, delete, count}

-- what `Update` leaves of a peer
abbrev pub touched : (PeerInfo → PeerInfo) → ℕ → PeerInfo → PeerInfo
touched fn now p = record (fn p) { updated_at = now; dirty = true }

pub get-store :
    (c : PeerCache) (k j : Bytes) (p : PeerInfo)
    → get (store c k p) j ≡ (if k ≟ j then some p else get c j)
unfolding get store
get-store [] k j p = refl
get-store ((i, q) ∷ c) k j p = ground (arith, ≟_iff k j, ≟_iff i k, ≟_iff i j, get-store c k j p)

-- After `Set` the key holds the given peer with the time of the call; every other key is as before.
pub get-set :
    (c : PeerCache) (k j : Bytes) (p : PeerInfo) (now : ℕ)
    → get (set c k p now) j ≡ (if k ≟ j then some (record p { updated_at = now }) else get c j)
unfolding set
get-set c k j p now = get-store c k j _

-- After `Update` the key holds what the function made of its peer, with the time of the call and
-- marked as dirty; a missing key stays missing, and every other key is as before.
pub get-update :
    (c : PeerCache) (k j : Bytes) (fn : PeerInfo → PeerInfo) (now : ℕ)
    → get (update c k fn now) j ≡ (if k ≟ j then Option.map (touched fn now) (get c j) else get c j)
unfolding get update
get-update [] k j fn now = ground arith
get-update ((i, q) ∷ c) k j fn now =
    ground (arith, ≟_iff k j, ≟_iff i k, ≟_iff i j, get-update c k j fn now)

-- No key stands twice.
abbrev has_key : PeerCache → Bytes → Bool
has_key c k = is_some (get c k)

abbrev pub IsMap : PeerCache → Type 0
IsMap [] = Unit
IsMap ((k, p) ∷ c) = (has_key c k ≡ false) × IsMap c

get-delete_other : (c : PeerCache) (k j : Bytes) → k ≢ j → get (delete c k) j ≡ get c j
unfolding get delete
get-delete_other [] k j h = refl
get-delete_other ((i, q) ∷ c) k j h = ground (arith, ≟_iff i k, ≟_iff i j, get-delete_other c k j h)

get-delete_self : (c : PeerCache) (k : Bytes) → IsMap c → get (delete c k) k ≡ none
unfolding get delete
get-delete_self [] k h = refl
get-delete_self ((i, q) ∷ c) k h = elim (Bool-cases (i ≟ k)) [
  | inl same ↦
      let e : i ≡ k = (≟_iff i k).0 same in rw same (none_of_is_some (get c k) (rw (← e) h.0))
  | inr other ↦ rw (other, get) (rw other (get-delete_self c k h.1))
]

-- In a cache with distinct keys, after `Delete` the key is missing and every other key is as before.
pub get-delete :
    (c : PeerCache) (k j : Bytes) → IsMap c → get (delete c k) j ≡ (if k ≟ j then none else get c j)
get-delete c k j h = elim (Bool-cases (k ≟ j)) [
  | inl same ↦
      rw same (subst (λ x. get (delete c k) x ≡ none) ((≟_iff k j).0 same) (get-delete_self c k h))
  | inr other ↦ rw other (get-delete_other c k j (ne_of_≟ k j other))
]

has_key-other :
    (c d : PeerCache) (k j : Bytes) (o : Option PeerInfo)
    → get d j ≡ (if k ≟ j then o else get c j)
    → k ≟ j ≡ false
    → has_key d j ≡ has_key c j
has_key-other c d k j o h e = rw (h, e)

pub IsMap-store : (c : PeerCache) (k : Bytes) (p : PeerInfo) → IsMap c → IsMap (store c k p)
unfolding store
IsMap-store [] k p h = (unfold get in refl, tt)
IsMap-store ((i, q) ∷ c) k p h = elim (Bool-cases (i ≟ k)) [
  | inl same ↦ rw same h
  | inr other ↦
      let apart = ≟_ne k i (λ e. ne_of_≟ i k other (sym e)) in
      rw other (
        has_key-other c (store c k p) k i (some p) (get-store c k i p) apart ∙ h.0,
        IsMap-store c k p h.1,
      )
]

pub IsMap-set :
    (c : PeerCache) (k : Bytes) (p : PeerInfo) (now : ℕ) → IsMap c → IsMap (set c k p now)
unfolding set
IsMap-set c k p now = IsMap-store c k _

pub IsMap-update :
    (c : PeerCache) (k : Bytes) (fn : PeerInfo → PeerInfo) (now : ℕ)
    → IsMap c
    → IsMap (update c k fn now)
unfolding update
IsMap-update [] k fn now h = tt
IsMap-update ((i, q) ∷ c) k fn now h = elim (Bool-cases (i ≟ k)) [
  | inl same ↦ rw same h
  | inr other ↦
      let apart = ≟_ne k i (λ e. ne_of_≟ i k other (sym e)) in
      rw other (
        has_key-other c (update c k fn now) k i _ (get-update c k i fn now) apart ∙ h.0,
        IsMap-update c k fn now h.1,
      )
]

pub IsMap-delete : (c : PeerCache) (k : Bytes) → IsMap c → IsMap (delete c k)
unfolding delete
IsMap-delete [] k h = tt
IsMap-delete ((i, q) ∷ c) k h = elim (Bool-cases (i ≟ k)) [
  | inl same ↦ rw same h.1
  | inr other ↦ rw other (
    ap is_some (get-delete_other c k i (λ e. ne_of_≟ i k other (sym e))) ∙ h.0,
    IsMap-delete c k h.1,
  )
]

length-store :
    (c : PeerCache) (k : Bytes) (p : PeerInfo)
    → length (store c k p) ≡ (if is_some (get c k) then length c else length c + 1)
unfolding store get
length-store [] k p = refl
length-store ((i, q) ∷ c) k p = ground (arith, length-store c k p)

-- `Set` adds one to the number of peers if the key is new, and keeps it otherwise.
pub count-set :
    (c : PeerCache) (k : Bytes) (p : PeerInfo) (now : ℕ)
    → count (set c k p now) ≡ (if is_some (get c k) then count c else count c + 1)
unfolding count set
count-set c k p now = length-store c k _

-- `Update` never changes the number of peers.
pub count-update :
    (c : PeerCache) (k : Bytes) (fn : PeerInfo → PeerInfo) (now : ℕ)
    → count (update c k fn now) ≡ count c
unfolding count update
count-update [] k fn now = refl
count-update ((i, q) ∷ c) k fn now = ground (arith, count-update c k fn now)

length-pos : (c : PeerCache) (k : Bytes) → is_some (get c k) ≡ true → 0 < length c
unfolding get
length-pos [] k h = cc
length-pos (x ∷ c) k h = omega arith

-- `Delete` takes one from the number of peers if the key is there, and keeps it otherwise.
pub count-delete :
    (c : PeerCache) (k : Bytes)
    → count (delete c k) ≡ (if is_some (get c k) then count c - 1 else count c)
unfolding count delete get
count-delete [] k = refl
count-delete ((i, q) ∷ c) k = ground (arith, count-delete c k, length-pos c k)
