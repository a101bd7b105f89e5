-- ===== src/Ctl/EtcdClient/Added.antt =====
-- What `AddPeer` leaves in etcd.
use valon.Prelude.{
  ◌≡◌, ◌≢◌, refl, ap, ◌∙◌, ◌⊎◌, inl, inr, Bool, true, false, none, some, [], ◌∷◌, ◌++◌, Bytes,
  codes, if◌then◌else◌, ◌≟◌, ≟_ne, All, All-append, Option-cases, subst, sym,
}
use valon.Text.{split}
use valon.Text.Path.{path_join, clean-plain, split-append, IsElement, IsPlain}
use valon.Etcd.{Etcd, IsEtcd, Contents, write, write_all, all_absent}
use valon.Etcd.Keys.{peer_key, alias_key, wg_ip_field, alias_field}
use valon.Ctl.EtcdClient.{PeerInfo, peer_path, alias_path, added_keys, alias_exists, add_peer}

IsPlain-append : (a b : Bytes) → IsPlain a → IsPlain b → IsPlain (a ++ (codes "/" ++ b))
IsPlain-append a b h k =
    subst (All IsElement) (sym (split-append a b))
      (All-append IsElement (split a b'/') (split b b'/') h k)

IsPlain-parts :
    IsPlain (codes "valon/peers")
    × IsPlain (codes "valon/aliases")
    × IsPlain (codes "wg_ip")
    × IsPlain (codes "alias")
unfolding split ◌≟◌
IsPlain-parts = (
  ((refl, refl, refl), ((refl, refl, refl), tt)),
  ((refl, refl, refl), ((refl, refl, refl), tt)),
  ((refl, refl, refl), tt),
  ((refl, refl, refl), tt),
)

pub alias_path-alias_key : (alias : Bytes) → IsPlain alias → alias_path alias ≡ alias_key alias
unfolding path_join alias_key
alias_path-alias_key alias plain =
    clean-plain (codes "valon/aliases/" ++ alias)
      (IsPlain-append (codes "valon/aliases") alias IsPlain-parts.1 plain)

pub peer_path-plain :
    (pubkey : Bytes) → IsPlain pubkey → peer_path pubkey ≡ codes "/valon/peers/" ++ pubkey
unfolding path_join
peer_path-plain pubkey plain =
    clean-plain (codes "valon/peers/" ++ pubkey)
      (IsPlain-append (codes "valon/peers") pubkey IsPlain-parts.0 plain)

field_path-peer_key :
    (pubkey field : Bytes)
    → IsPlain pubkey
    → IsPlain field
    → path_join (peer_path pubkey ∷ field ∷ []) ≡ peer_key pubkey field
unfolding path_join peer_key
field_path-peer_key pubkey field plain plain_field = rw (peer_path-plain pubkey plain) (
    clean-plain (codes "valon/peers/" ++ (pubkey ++ (codes "/" ++ field))) (
      IsPlain-append (codes "valon/peers") (pubkey ++ (codes "/" ++ field)) IsPlain-parts.0
        (IsPlain-append pubkey field plain plain_field)))

-- the three keys of a peer, as the plugin spells them
abbrev pub registered : PeerInfo → Contents → Contents
registered peer m =
    write
      (write (write m (peer_key peer.pubkey wg_ip_field) peer.ip) (peer_key peer.pubkey alias_field)
        peer.alias)
      (alias_key peer.alias) peer.pubkey

pub write_all-added_keys :
    (peer : PeerInfo) (m : Contents)
    → IsPlain peer.pubkey
    → IsPlain peer.alias
    → write_all m (added_keys peer) ≡ registered peer m
write_all-added_keys peer m plain_key plain_alias =
    rw
      (
        field_path-peer_key peer.pubkey wg_ip_field plain_key IsPlain-parts.2,
        field_path-peer_key peer.pubkey alias_field plain_key IsPlain-parts.3,
        alias_path-alias_key peer.alias plain_alias,
      )
      refl

module _ {S : Type 0} (e : Etcd S) (laws : IsEtcd e) (peer : PeerInfo) (s : S) where
  add_peer-txn :
      (b : Bool)
      → peer.pubkey ≢ []
      → peer.ip ≢ []
      → peer.alias ≢ []
      → (e.txn s (alias_path peer.alias ∷ []) (added_keys peer)).0 ≡ some b
      → add_peer e peer s ≡ (
        if b then none else some (alias_exists peer.alias),
        (e.txn s (alias_path peer.alias ∷ []) (added_keys peer)).1,
      )
  unfolding add_peer
  add_peer-txn true has_key has_ip has_alias got =
      rw (≟_ne peer.pubkey [] has_key, ≟_ne peer.ip [] has_ip, ≟_ne peer.alias [] has_alias, got)
        refl
  add_peer-txn false has_key has_ip has_alias got =
      rw (≟_ne peer.pubkey [] has_key, ≟_ne peer.ip [] has_ip, ≟_ne peer.alias [] has_alias, got)
        refl

  -- `AddPeer` of a peer with a key, an address and an alias, when etcd answers: where the alias is
  -- not registered, the three keys of the peer are written under the names that the plugin reads,
  -- with no error; where it is, the error says so and nothing changes. The key and the alias have
  -- no empty element and none of dots between slashes.
  pub add_peer-contents :
      (b : Bool)
      → peer.pubkey ≢ []
      → peer.ip ≢ []
      → peer.alias ≢ []
      → IsPlain peer.pubkey
      → IsPlain peer.alias
      → (e.txn s (alias_path peer.alias ∷ []) (added_keys peer)).0 ≡ some b
      → ((laws.contents s (alias_key peer.alias) ≡ none)
          × ((add_peer e peer s).0 ≡ none)
          × (laws.contents (add_peer e peer s).1 ≡ registered peer (laws.contents s)))
        ⊎ ((k : Bytes) × (laws.contents s (alias_key peer.alias) ≡ some k)
            × ((add_peer e peer s).0 ≡ some (alias_exists peer.alias))
            × (laws.contents (add_peer e peer s).1 ≡ laws.contents s))
  add_peer-contents b has_key has_ip has_alias plain_key plain_alias got =
      let (decided, wrote) =
        laws.txn_writes s (alias_path peer.alias ∷ []) (added_keys peer) b got in
      let result = add_peer-txn b has_key has_ip has_alias got in
      let renamed : b ≡ all_absent (laws.contents s) (alias_key peer.alias ∷ []) =
        decided
        ∙ ap (λ k. all_absent (laws.contents s) (k ∷ []))
            (alias_path-alias_key peer.alias plain_alias) in
      elim (Option-cases (laws.contents s (alias_key peer.alias))) [
        | inl missing ↦
            let free : b ≡ true = renamed ∙ rw missing refl in
            inl (
              missing,
              ap (λ r. r.0) result ∙ rw free refl,
              ap (λ r. laws.contents r.1) result
                  ∙ wrote
                  ∙ rw free (write_all-added_keys peer (laws.contents s) plain_key plain_alias),
            )
        | inr (k, found) ↦
            let taken : b ≡ false = renamed ∙ rw found refl in
            inr (
              k,
              found,
              ap (λ r. r.0) result ∙ rw taken refl,
              ap (λ r. laws.contents r.1) result ∙ wrote ∙ rw taken refl,
            )
      ]
