-- ===== src/Ctl/EtcdClient/Committed.antt =====
-- What etcd holds after an `AddPeer` without an error (valonctl/pkg/client/etcd.go).
use valon.Prelude.{◌≡◌, inl, inr, true, false, none, [], ◌∷◌, Bytes, ◌≟◌, Bool-cases, Option-cases}
use valon.Etcd.{Etcd, IsEtcd, Contents, write_all, all_absent}
use valon.Ctl.EtcdClient.{PeerInfo, add_result, alias_path, added_keys, add_peer}

module _ {S : Type 0} (e : Etcd S) (etcd : IsEtcd e) where
  -- the alias was free, and the keys of the peer have been written
  abbrev pub Registered : PeerInfo → S → S → Type 0
  Registered peer s s' =
      (etcd.contents s (alias_path peer.alias) ≡ none)
      × (etcd.contents s' ≡ write_all (etcd.contents s) (added_keys peer))

  Registered-txn :
      (peer : PeerInfo) (s : S)
      → add_result peer.alias (e.txn s (alias_path peer.alias ∷ []) (added_keys peer)).0 ≡ none
      → Registered peer s (e.txn s (alias_path peer.alias ∷ []) (added_keys peer)).1
  Registered-txn peer s h =
      elim (Option-cases (e.txn s (alias_path peer.alias ∷ []) (added_keys peer)).0) [
        | inl failed ↦ let never = rw failed at h in absurd (cc never)
        | inr (false, taken) ↦ let never = rw taken at h in absurd (cc never)
        | inr (true, done) ↦
            let (decided, wrote) =
              etcd.txn_writes s (alias_path peer.alias ∷ []) (added_keys peer) true done in
            (absent (etcd.contents s) (alias_path peer.alias) decided, wrote)
      ]
    where
      absent : (m : Contents) (k : Bytes) → true ≡ all_absent m (k ∷ []) → m k ≡ none
      absent m k h = elim (Option-cases (m k)) [
        | inl missing ↦ missing
        | inr (v, found) ↦ let never = rw found at h in absurd (cc never)
      ]

  pub Registered-add_peer :
      (peer : PeerInfo) (s : S)
      → (add_peer e peer s).0 ≡ none
      → Registered peer s (add_peer e peer s).1
  unfolding add_peer
  Registered-add_peer peer s h = elim (Bool-cases (peer.pubkey ≟ [])) [
    | inl empty ↦ let never = rw (add_peer, empty) at h in absurd (cc never)
    | inr pubkey ↦ elim (Bool-cases (peer.ip ≟ [])) [
      | inl empty ↦ let never = rw (add_peer, pubkey, empty) at h in absurd (cc never)
      | inr ip ↦ elim (Bool-cases (peer.alias ≟ [])) [
        | inl empty ↦ let never = rw (add_peer, pubkey, ip, empty) at h in absurd (cc never)
        | inr alias ↦
            rw (add_peer, pubkey, ip, alias)
              (Registered-txn peer s (rw (add_peer, pubkey, ip, alias) at h))
      ]
    ]
  ]
