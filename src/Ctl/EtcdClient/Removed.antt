-- ===== src/Ctl/EtcdClient/Removed.antt =====
-- What `RemovePeer` leaves in etcd.
use valon.Prelude.{
  ◌≡◌, refl, ap, sym, ◌∙◌, Bool, true, false, Option, none, Bytes, Result, ok, if◌then◌else◌, ◌≟◌,
  inl, inr, Bool-cases,
}
use valon.Text.{has_prefix}
use valon.Etcd.{Etcd, IsEtcd}
use valon.Ctl.EtcdClient.{
  peer_path, alias_path, RemoveError, looks_like_pubkey, identify, call_ddns, delete_alias,
  delete_keys, after_identify, remove_peer,
}

module _ {S : Type 0} (e : Etcd S) where
  -- what no deletion changes is as the call of the API leaves it
  pub view-delete_keys :
      {V : Type 0} (view : S → V) (ddns : Option (Bytes → S → Bool × S)) (pubkey alias : Bytes)
      (s : S)
      → ((x : S) (k : Bytes) → view (e.delete x k).1 ≡ view x)
      → ((x : S) (p : Bytes) → view (e.delete_prefix x p).1 ≡ view x)
      → view (delete_keys e ddns pubkey alias s).1 ≡ view (call_ddns e ddns pubkey s)
  unfolding delete_keys
  view-delete_keys view ddns pubkey alias s by_delete by_prefix =
      of_alias (e.delete_prefix (call_ddns e ddns pubkey s) (peer_path pubkey))
      ∙ by_prefix (call_ddns e ddns pubkey s) (peer_path pubkey)
    where
      of_alias : (r : Bool × S) → view (delete_alias e alias r).1 ≡ view r.1
      of_alias (false, x) = unfold delete_alias in refl
      of_alias (true, x) = unfold delete_alias in by_delete x (alias_path alias)

  pub view-identify :
      {V : Type 0} (view : S → V) (arg : Bytes) (s : S)
      → ((x : S) (k : Bytes) → view (e.get x k).1 ≡ view x)
      → view (identify e arg s).1 ≡ view s
  unfolding identify
  view-identify view arg s by_get = elim (Bool-cases (looks_like_pubkey arg)) [
    | inl key ↦ rw key (by_get s _)
    | inr name ↦ rw name (by_get s _)
  ]

  after_identify-delete_keys :
      (ddns : Option (Bytes → S → Bool × S)) (pubkey alias : Bytes)
      (r : Result RemoveError (Bytes × Bytes) × S)
      → r.0 ≡ ok (pubkey, alias)
      → after_identify e ddns r ≡ delete_keys e ddns pubkey alias r.1
  unfolding after_identify
  after_identify-delete_keys ddns pubkey alias (x, s) known = rw known refl

  -- the first half gives the second one its peer
  pub remove_peer-delete_keys :
      (ddns : Option (Bytes → S → Bool × S)) (arg pubkey alias : Bytes) (s : S)
      → (identify e arg s).0 ≡ ok (pubkey, alias)
      → remove_peer e ddns arg s ≡ delete_keys e ddns pubkey alias (identify e arg s).1
  unfolding remove_peer
  remove_peer-delete_keys ddns arg pubkey alias s known =
      after_identify-delete_keys ddns pubkey alias (identify e arg s) known

module _ {S : Type 0} (e : Etcd S) (laws : IsEtcd e) where
  delete_alias-contents :
      (alias : Bytes) (r : Bool × S)
      → (delete_alias e alias r).0 ≡ none
      → (r.0 ≡ true)
        × ((j : Bytes)
            → laws.contents (delete_alias e alias r).1 j
              ≡ (if alias_path alias ≟ j then none else laws.contents r.1 j))
  unfolding delete_alias
  delete_alias-contents alias (false, s) h = absurd cc
  delete_alias-contents alias (true, s) h = elim (Bool-cases (e.delete s (alias_path alias)).0) [
    | inl done ↦ (refl, laws.delete_removes s (alias_path alias) done)
    | inr failed ↦ absurd (cc (rw failed at h))
  ]

  pub delete_keys-contents :
      (ddns : Option (Bytes → S → Bool × S)) (pubkey alias : Bytes) (s : S)
      → (delete_keys e ddns pubkey alias s).0 ≡ none
      → (j : Bytes)
      → laws.contents (delete_keys e ddns pubkey alias s).1 j ≡ (
          if alias_path alias ≟ j
          then none
          else if has_prefix j (peer_path pubkey)
          then none
          else laws.contents (call_ddns e ddns pubkey s) j)
  unfolding delete_keys
  delete_keys-contents ddns pubkey alias s h j =
      let (done, last) = delete_alias-contents alias _ h in
      last j
      ∙ ap (λ o. if alias_path alias ≟ j then none else o)
          (laws.delete_prefix_removes (call_ddns e ddns pubkey s) (peer_path pubkey) done j)

  reads-identify : (arg : Bytes) (s : S) → laws.contents (identify e arg s).1 ≡ laws.contents s
  reads-identify arg s = view-identify e laws.contents arg s laws.get_reads

  -- After a removal without an error neither the alias nor any key under the path of the peer is
  -- left in etcd, and every other key is as the call of the DDNS API leaves it; the key and the alias
  -- of the peer are those that etcd gave for the argument.
  pub remove_peer-contents :
      (ddns : Option (Bytes → S → Bool × S)) (arg pubkey alias : Bytes) (s : S)
      → (identify e arg s).0 ≡ ok (pubkey, alias)
      → (remove_peer e ddns arg s).0 ≡ none
      → (j : Bytes)
      → laws.contents (remove_peer e ddns arg s).1 j ≡ (
          if alias_path alias ≟ j
          then none
          else if has_prefix j (peer_path pubkey)
          then none
          else laws.contents (call_ddns e ddns pubkey (identify e arg s).1) j)
  remove_peer-contents ddns arg pubkey alias s known removed j =
      let all = remove_peer-delete_keys e ddns arg pubkey alias s known in
      ap (λ r. laws.contents r.1 j) all
      ∙ delete_keys-contents ddns pubkey alias (identify e arg s).1
          (sym (ap (λ r. r.0) all) ∙ removed) j
