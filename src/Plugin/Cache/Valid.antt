-- ===== src/Plugin/Cache/Valid.antt =====
-- What a cache of the plugin always is, and that every method keeps it.
use valon.Prelude.{
  ℕ, ◌≡◌, refl, sym, ap, ◌∙◌, inl, inr, Option, none, some, Bytes, ◌≟◌, ≟_iff, Bool-cases,
}
use mathlib.Core.Option
use valon.Plugin.Cache
use valon.Plugin.Cache.{PeerInfo, PeerCache, new_peer_cache}
use valon.Plugin.Cache.Laws.{
  touched, get-set, get-update, get-delete, IsMap, IsMap-set, IsMap-update, IsMap-delete,
}

-- Every peer is stored under its own key.
abbrev pub Keyed : PeerCache → Type 0
Keyed c = (k : Bytes) (p : PeerInfo) → Cache.get c k ≡ some p → p.pub_key ≡ k

-- The keys are distinct, and every peer is stored under its own key.
abbrev pub IsValid : PeerCache → Type 0
IsValid c = IsMap c × Keyed c

pub new_peer_cache-IsValid : IsValid new_peer_cache
unfolding Cache.get
new_peer_cache-IsValid = (tt, λ k p found. absurd cc)

module _ (c : PeerCache) (k : Bytes) (now : ℕ) (valid : IsValid c) where
  pub IsValid-set : (p : PeerInfo) → p.pub_key ≡ k → IsValid (Cache.set c k p now)
  IsValid-set p own = (IsMap-set c k p now valid.0, λ j q found. keyed j q found)
    where
      keyed :
          (j : Bytes) (q : PeerInfo) → Cache.get (Cache.set c k p now) j ≡ some q → q.pub_key ≡ j
      keyed j q found = elim (Bool-cases (k ≟ j)) [
        | inl same ↦
            let stored : Cache.get (Cache.set c k p now) j ≡ some (record p { updated_at = now }) =
              get-set c k j p now ∙ rw same refl in
            sym (ap (λ x. x.pub_key) (Option.some_inj.0 (sym stored ∙ found)))
            ∙ own
            ∙ (≟_iff k j).0 same
        | inr other ↦ valid.1 j q (sym (get-set c k j p now ∙ rw other refl) ∙ found)
      ]

  pub IsValid-update :
      (fn : PeerInfo → PeerInfo)
      → ((p : PeerInfo) → p.pub_key ≡ k → (fn p).pub_key ≡ k)
      → IsValid (Cache.update c k fn now)
  IsValid-update fn keeps = (IsMap-update c k fn now valid.0, λ j q found. keyed j q found)
    where
      at_key :
          (j : Bytes) (q : PeerInfo) (o : Option PeerInfo)
          → Cache.get c k ≡ o
          → k ≡ j
          → Option.map (touched fn now) o ≡ some q
          → q.pub_key ≡ j
      at_key j q none missing same found = absurd cc
      at_key j q (some p) stored same found =
          sym (ap (λ x. x.pub_key) (Option.some_inj.0 found)) ∙ keeps p (valid.1 k p stored) ∙ same

      keyed :
          (j : Bytes) (q : PeerInfo)
          → Cache.get (Cache.update c k fn now) j ≡ some q
          → q.pub_key ≡ j
      keyed j q found = elim (Bool-cases (k ≟ j)) [
        | inl same ↦
            let e : k ≡ j = (≟_iff k j).0 same in
            at_key j q (Cache.get c j) (ap (Cache.get c) e) e
              (sym (get-update c k j fn now ∙ rw same refl) ∙ found)
        | inr other ↦ valid.1 j q (sym (get-update c k j fn now ∙ rw other refl) ∙ found)
      ]

  pub IsValid-delete : IsValid (Cache.delete c k)
  IsValid-delete = (IsMap-delete c k valid.0, λ j q found. keyed j q found)
    where
      keyed : (j : Bytes) (q : PeerInfo) → Cache.get (Cache.delete c k) j ≡ some q → q.pub_key ≡ j
      keyed j q found = elim (Bool-cases (k ≟ j)) [
        | inl same ↦
            let gone : none ≡ some q = sym (get-delete c k j valid.0 ∙ rw same refl) ∙ found in
            absurd cc
        | inr other ↦ valid.1 j q (sym (get-delete c k j valid.0 ∙ rw other refl) ∙ found)
      ]
