-- ===== src/Ctl/WireguardClient/Changes.antt =====
-- What the operations of valonctl's client change in WireGuard.
use valon.Prelude.{
  ◌≡◌, refl, ap, ◌∙◌, inl, inr, Bool, true, false, ◌&&◌, Option, none, some, ◌++◌, Bytes, codes,
  if◌then◌else◌, ◌≟◌, Option-cases,
}
use valon.Net.Cidr.{parse_cidr}
use valon.Wireguard.{Wgctrl, IsWgctrl, PeerConfig}
use valon.Ctl.WireguardClient
use valon.Ctl.WireguardClient.{
  WireguardError, invalid_public_key, invalid_ip_address, add_failed, remove_failed, parse_key,
  added_config, removed_config, unless_done,
}

module _ {T : Type 0} (wg : Wgctrl T) (laws : IsWgctrl wg) (i : Bytes) where
  -- One peer of the interface is set to be there or not; all else is as before.
  abbrev pub SetTo : Bytes → Bool → T → T → Type 0
  SetTo k b before after =
      (j x : Bytes)
      → laws.has_peer after j x ≡ (if i ≟ j && k ≟ x then b else laws.has_peer before j x)

  pub SetTo-then :
      (k : Bytes) (b c : Bool) (t0 t1 t2 : T) → SetTo k b t0 t1 → SetTo k c t1 t2 → SetTo k c t0 t2
  SetTo-then k b c t0 t1 t2 h g j x =
      g j x ∙ ap (λ y. if i ≟ j && k ≟ x then c else y) (h j x) ∙ absorbed (i ≟ j && k ≟ x)
    where
      absorbed :
          (here : Bool)
          → (if here then c else if here then b else laws.has_peer t0 j x)
            ≡ (if here then c else laws.has_peer t0 j x)
      absorbed true = refl
      absorbed false = refl

  pub SetTo-same :
      (k : Bytes) (b : Bool) (t0 t1 t2 : T)
      → SetTo k b t0 t1
      → laws.has_peer t2 ≡ laws.has_peer t1
      → SetTo k b t0 t2
  SetTo-same k b t0 t1 t2 h e j x = ap (λ f. f j x) e ∙ h j x

  -- the results of the client's operations
  abbrev pub AddedOr : Bytes → T → Option WireguardError × T → Type 0
  AddedOr pubkey t (none, t') = (k : Bytes) × (parse_key pubkey ≡ some k) × SetTo k true t t'
  AddedOr pubkey t (some x, t') = laws.has_peer t' ≡ laws.has_peer t

  AddedOr-unless_done :
      (pubkey k : Bytes) (c : PeerConfig) (t : T) (failed : WireguardError) (r : Bool × T)
      → parse_key pubkey ≡ some k
      → (r.0 ≡ true → SetTo k true t r.1)
      → (r.0 ≡ false → laws.has_peer r.1 ≡ laws.has_peer t)
      → AddedOr pubkey t (unless_done failed r)
  AddedOr-unless_done pubkey k c t failed (true, t') h set same = (k, h, set refl)
  AddedOr-unless_done pubkey k c t failed (false, t') h set same = same refl

  pub AddedOr-add_peer :
      (pubkey ip : Bytes) (t : T) → AddedOr pubkey t (WireguardClient.add_peer wg i pubkey ip t)
  unfolding WireguardClient.add_peer
  AddedOr-add_peer pubkey ip t = elim (Option-cases (parse_key pubkey)) [
    | inl bad ↦ rw (WireguardClient.add_peer, bad) refl
    | inr (k, good) ↦ elim (Option-cases (parse_cidr (ip ++ codes "/32"))) [
      | inl bad ↦ rw (WireguardClient.add_peer, good, bad) refl
      | inr ((addr, net), parsed) ↦
          rw (WireguardClient.add_peer, good, parsed)
            (AddedOr-unless_done pubkey k (added_config k net) t add_failed
              (wg.configure_device t i (added_config k net)) good
              (λ done. laws.configure_changes t i (added_config k net) done)
              (λ failed. laws.configure_fails t i (added_config k net) failed))
    ]
  ]

  -- What a removal that WireGuard took has done, and one that it did not take.
  abbrev pub RemovedOr : Bytes → T → Option WireguardError × T → Type 0
  RemovedOr pubkey t (none, t') = (k : Bytes) × (parse_key pubkey ≡ some k) × SetTo k false t t'
  RemovedOr pubkey t (some x, t') = laws.has_peer t' ≡ laws.has_peer t

  RemovedOr-unless_done :
      (pubkey k : Bytes) (t : T) (failed : WireguardError) (r : Bool × T)
      → parse_key pubkey ≡ some k
      → (r.0 ≡ true → SetTo k false t r.1)
      → (r.0 ≡ false → laws.has_peer r.1 ≡ laws.has_peer t)
      → RemovedOr pubkey t (unless_done failed r)
  RemovedOr-unless_done pubkey k t failed (true, t') h set same = (k, h, set refl)
  RemovedOr-unless_done pubkey k t failed (false, t') h set same = same refl

  pub RemovedOr-remove_peer :
      (pubkey : Bytes) (t : T) → RemovedOr pubkey t (WireguardClient.remove_peer wg i pubkey t)
  unfolding WireguardClient.remove_peer
  RemovedOr-remove_peer pubkey t = elim (Option-cases (parse_key pubkey)) [
    | inl bad ↦ rw (WireguardClient.remove_peer, bad) refl
    | inr (k, good) ↦
        rw (WireguardClient.remove_peer, good)
          (RemovedOr-unless_done pubkey k t remove_failed
            (wg.configure_device t i (removed_config k)) good
            (λ done. laws.configure_changes t i (removed_config k) done)
            (λ failed. laws.configure_fails t i (removed_config k) failed))
  ]
