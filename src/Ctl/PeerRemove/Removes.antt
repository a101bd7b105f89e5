-- ===== src/Ctl/PeerRemove/Removes.antt =====
-- What `valonctl peer remove` leaves in WireGuard and etcd, on every path.
use valon.Prelude.{
  ℕ, ◌≡◌, refl, sym, subst, ◌≢◌, ≟_iff, ◌||◌, ◌∷◌, ◌⊎◌, inl, inr, Bool, true, false, Option, none,
  some, [], Bytes, ◌≟◌, Bool-cases,
}
use valon.Etcd.{Etcd, IsEtcd}
use valon.Wireguard.{Wgctrl, IsWgctrl}
use valon.Ctl.EtcdClient
use valon.Ctl.EtcdClient.{RemoveError}
use valon.Ctl.WireguardClient
use valon.Ctl.WireguardClient.{WireguardError, parse_key}
use valon.Ctl.WireguardClient.Changes.{SetTo, RemovedOr, RemovedOr-remove_peer}
use valon.Ctl.PeerAdd.{Outside}
use valon.Ctl.PeerList.{ListedPeer, PeerEntries, list_peers}
use valon.Ctl.PeerList.Keys.{reads-list_peers}
use valon.Ctl.PeerRemove.{
  PeerRemoveError, remove_failed, target_pubkey, removed, with_wireguard, with_peers,
  run_peer_remove,
}

-- an entry of the list, at its place
abbrev pub In : Bytes × ListedPeer → PeerEntries → Type 0
In entry [] = ⊥
In entry (other ∷ peers) = (other ≡ entry) ⊎ In entry peers

-- A peer of the list has the text as its key or its alias.
pub record Named (arg : Bytes) (peers : PeerEntries) : Type 0 where
  pub entry : Bytes × ListedPeer
  pub listed : In entry peers
  pub by_arg : (entry.1.pubkey ≡ arg) ⊎ (entry.1.alias ≡ arg)

Named-later :
    (arg target : Bytes) (other : Bytes × ListedPeer) (peers : PeerEntries)
    → (n : Named arg peers) × (n.entry.1.pubkey ≡ target)
    → (n : Named arg (other ∷ peers)) × (n.entry.1.pubkey ≡ target)
Named-later arg target other peers (n, same) =
    (record { entry = n.entry; listed = inr n.listed; by_arg = n.by_arg }, same)

either-cases : (a b : Bool) → (a || b) ≡ true → (a ≡ true) ⊎ (b ≡ true)
either-cases true b h = inl refl
either-cases false b h = inr h

Named-target_pubkey :
    (arg : Bytes) (peers : PeerEntries)
    → target_pubkey peers arg ≟ [] ≡ false
    → (n : Named arg peers) × (n.entry.1.pubkey ≡ target_pubkey peers arg)
unfolding target_pubkey ◌≟◌
Named-target_pubkey arg [] h = absurd cc
Named-target_pubkey arg ((k, p) ∷ peers) h = elim (Bool-cases (p.pubkey ≟ arg || p.alias ≟ arg)) [
  | inr other ↦
      rw (target_pubkey, other)
        (Named-later arg (target_pubkey peers arg) (k, p) peers
          (Named-target_pubkey arg peers (rw (target_pubkey, other) at h)))
  | inl here ↦
      rw (target_pubkey, here)
        (
          record {
            entry = (k, p);
            listed = inl refl;
            by_arg = elim (either-cases (p.pubkey ≟ arg) (p.alias ≟ arg) here) [
              | inl key ↦ inl ((≟_iff p.pubkey arg).0 key)
              | inr alias ↦ inr ((≟_iff p.alias arg).0 alias)
            ];
          },
          refl,
        )
]

module _ {S T : Type 0} (e : Etcd S) (wg : Wgctrl T) (etcd : IsEtcd e) (laws : IsWgctrl wg)
    (parse_time : Bytes → Option ℕ) (in_order : PeerEntries → PeerEntries)
    (ddns : Option (Bytes → S → Bool × S)) (wg_interface arg : Bytes) where
  -- The peer of the key is gone if WireGuard, asked in `t`, takes the removal, and nothing is
  -- changed if not.
  abbrev pub Gone : Bytes → T → T → Type 0
  Gone target t after =
      (((WireguardClient.remove_peer wg wg_interface target t).0 ≡ none)
        × ((k : Bytes) × (parse_key target ≡ some k) × SetTo wg laws wg_interface k false t after))
      ⊎ (((WireguardClient.remove_peer wg wg_interface target t).0 ≢ none)
          × (laws.has_peer after ≡ laws.has_peer t))

  -- The argument names a peer of the list, and WireGuard is asked to remove that one.
  pub record Targeted (o : Outside S T) (after : T) : Type 0 where
    pub peers : PeerEntries
    pub answered : (list_peers parse_time e o.etcd).0 ≡ some peers
    pub named : Named arg (in_order peers)
    pub unchanged : laws.has_peer (wg.connect o.wireguard).1 ≡ laws.has_peer o.wireguard
    pub gone : Gone named.entry.1.pubkey (wg.connect o.wireguard).1 after

  abbrev pub Left : Outside S T → Option PeerRemoveError × Outside S T → Type 0
  Left o (none, after) = Targeted o after.wireguard
  Left o (some (remove_failed x), after) = Targeted o after.wireguard
  Left o (some x, after) =
      (laws.has_peer after.wireguard ≡ laws.has_peer o.wireguard)
      × (etcd.contents after.etcd ≡ etcd.contents o.etcd)

  Gone-remove_peer :
      (target : Bytes) (t : T) (r : Option WireguardError × T)
      → RemovedOr wg laws wg_interface target t r
      → ((r.0 ≡ none)
          × ((k : Bytes) × (parse_key target ≡ some k) × SetTo wg laws wg_interface k false t r.1))
        ⊎ ((r.0 ≢ none) × (laws.has_peer r.1 ≡ laws.has_peer t))
  Gone-remove_peer target t (none, t') h = inl (refl, h)
  Gone-remove_peer target t (some x, t') h = inr (λ e. cc, h)

  Left-removed :
      (o : Outside S T) (t : T) (r : Option RemoveError × S)
      → Targeted o t
      → Left o (removed e wg parse_time in_order ddns wg_interface arg r t)
  unfolding removed
  Left-removed o t (none, s) h = h
  Left-removed o t (some x, s) h = h

  Left-with_wireguard :
      (o : Outside S T) (target : Bytes) (s : S) (r : Bool × T)
      → laws.has_peer r.1 ≡ laws.has_peer o.wireguard
      → etcd.contents s ≡ etcd.contents o.etcd
      → Targeted o (WireguardClient.remove_peer wg wg_interface target r.1).1
      → Left o (with_wireguard e wg parse_time in_order ddns wg_interface arg target s r)
  unfolding with_wireguard
  Left-with_wireguard o target s (false, t) same kept targeted = (same, kept)
  Left-with_wireguard o target s (true, t) same kept targeted =
      Left-removed o (WireguardClient.remove_peer wg wg_interface target t).1
        (EtcdClient.remove_peer e ddns arg s) targeted

  targeted :
      (o : Outside S T) (peers : PeerEntries)
      → (list_peers parse_time e o.etcd).0 ≡ some peers
      → target_pubkey (in_order peers) arg ≟ [] ≡ false
      → Targeted o
          (WireguardClient.remove_peer wg wg_interface
            (target_pubkey (in_order peers) arg)
            (wg.connect o.wireguard).1).1
  targeted o peers answered found =
      let (named, same) = Named-target_pubkey arg (in_order peers) found in
      let t = (wg.connect o.wireguard).1 in
      record {
        peers = peers;
        answered = answered;
        named = named;
        unchanged = laws.connect_reads o.wireguard;
        gone =
            subst
              (λ x.
                Gone x t
                  (WireguardClient.remove_peer wg wg_interface (target_pubkey (in_order peers) arg)
                    t).1)
              (sym same)
              (Gone-remove_peer (target_pubkey (in_order peers) arg) t _ (
                RemovedOr-remove_peer wg laws wg_interface (target_pubkey (in_order peers) arg) t));
      }

  Left-with_peers :
      (o : Outside S T) (r : Option PeerEntries × S)
      → (list_peers parse_time e o.etcd).0 ≡ r.0
      → etcd.contents r.1 ≡ etcd.contents o.etcd
      → Left o (with_peers e wg parse_time in_order ddns wg_interface arg o.wireguard r)
  unfolding with_peers
  Left-with_peers o (none, s) answered kept = (refl, kept)
  Left-with_peers o (some peers, s) answered kept =
      elim (Bool-cases (target_pubkey (in_order peers) arg ≟ [])) [
        | inl missing ↦ rw (with_peers, missing) (refl, kept)
        | inr found ↦
            rw (with_peers, found)
              (Left-with_wireguard o (target_pubkey (in_order peers) arg) s (wg.connect o.wireguard)
                (laws.connect_reads o.wireguard) kept (targeted o peers answered found))
      ]

  -- A run of `peer remove` that ends without an error, or with one of the removal in etcd, has asked
  -- WireGuard to remove the key of a peer of the list that ListPeers returns, whose key or alias is
  -- the argument: that peer is gone and all others are as before if WireGuard takes the removal, and
  -- all are as before if not. With any other error neither WireGuard's peers nor etcd have changed.
  pub run_peer_remove-Left :
      (etcd_client : Bool) (o : Outside S T)
      → Left o (run_peer_remove e wg parse_time in_order ddns wg_interface arg etcd_client o)
  unfolding run_peer_remove
  run_peer_remove-Left false o = (refl, refl)
  run_peer_remove-Left true o =
      Left-with_peers o (list_peers parse_time e o.etcd) refl
        (reads-list_peers e etcd parse_time o.etcd)
