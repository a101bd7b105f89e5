-- ===== src/Ctl/PeerAdd/Leaves.antt =====
-- What `valonctl peer add` leaves in WireGuard and etcd, on every path.
use valon.Prelude.{
  ℕ, ◌≡◌, refl, sym, subst, ◌≢◌, ◌∙◌, ◌⊎◌, inl, inr, Bool, true, false, Option, none, some, [],
  Bytes, Result, ok, err, ◌≟◌, Bool-cases, Option-cases,
}
use mathlib.Core.Option
use valon.Text.{Unicode}
use valon.Net.Cidr.{parse_cidr}
use valon.Etcd.{Etcd, IsEtcd}
use valon.Wireguard.{Wgctrl, IsWgctrl}
use valon.Ctl.Config.{Config}
use valon.Ctl.Validation.{validate_alias}
use valon.Ctl.EtcdClient
use valon.Ctl.EtcdClient.{AddError}
use valon.Ctl.Allocation.{AllocateError, allocate_ip, peers_path}
use valon.Ctl.WireguardClient
use valon.Ctl.WireguardClient.Changes.{
  SetTo, SetTo-then, SetTo-same, AddedOr, AddedOr-add_peer, RemovedOr, RemovedOr-remove_peer,
}
use valon.Ctl.WireguardClient.{
  WireguardError, invalid_public_key, invalid_ip_address, add_failed, remove_failed, parse_key,
  added_config, removed_config,
}
use valon.Ctl.PeerAdd.{
  Outside, PeerAddError, register_failed, Added, peer_info, chosen_ip, print_client_config,
  registered, in_wireguard, with_client, with_ip, run_peer_add,
}

module _ {S T : Type 0} (e : Etcd S) (wg : Wgctrl T) (etcd : IsEtcd e) (u : Unicode) (cfg : Config)
    (fuel : ℕ) (pubkey alias : Bytes) where
  contents-allocate_ip :
      (cidr : Bytes) (s : S) → etcd.contents (allocate_ip e fuel cidr s).1 ≡ etcd.contents s
  unfolding allocate_ip
  contents-allocate_ip cidr s = elim (Option-cases (parse_cidr cidr)) [
    | inl bad ↦ rw (allocate_ip, bad) refl
    | inr ((ip, net), good) ↦ rw (allocate_ip, good) (etcd.get_prefix_reads s peers_path)
  ]

  pub contents-chosen_ip :
      (wg_ip : Bytes) (s : S)
      → etcd.contents (chosen_ip e wg u cfg fuel pubkey alias wg_ip s).1 ≡ etcd.contents s
  contents-chosen_ip wg_ip s = elim (Bool-cases (wg_ip ≟ [])) [
    | inl empty ↦ rw empty (contents-allocate_ip cfg.network s)
    | inr given ↦ rw given refl
  ]

module _ {S T : Type 0} (e : Etcd S) (wg : Wgctrl T) (etcd : IsEtcd e) (laws : IsWgctrl wg)
    (u : Unicode) (cfg : Config) (fuel : ℕ) (pubkey alias : Bytes) where
  -- The peer that `t` has is removed again if WireGuard, asked in `t`, takes the removal, and is
  -- there if not.
  abbrev pub RolledBack : Bytes → T → T → T → Type 0
  RolledBack k before t after =
      (((WireguardClient.remove_peer wg cfg.wg_interface pubkey t).0 ≡ none)
        × SetTo wg laws cfg.wg_interface k false before after)
      ⊎ (((WireguardClient.remove_peer wg cfg.wg_interface pubkey t).0 ≢ none)
          × SetTo wg laws cfg.wg_interface k true before after)

  RolledBack-remove_peer :
      (k : Bytes) (before t : T) (r : Option WireguardError × T)
      → parse_key pubkey ≡ some k
      → SetTo wg laws cfg.wg_interface k true before t
      → RemovedOr wg laws cfg.wg_interface pubkey t r
      → ((r.0 ≡ none) × SetTo wg laws cfg.wg_interface k false before r.1)
        ⊎ ((r.0 ≢ none) × SetTo wg laws cfg.wg_interface k true before r.1)
  RolledBack-remove_peer k before t (none, t') h set (k', h', gone) =
      let same : k' ≡ k = Option.some_inj.0 (sym h' ∙ h) in
      inl (
        refl,
        SetTo-then wg laws cfg.wg_interface k true false before t t' set
            (subst (λ x. SetTo wg laws cfg.wg_interface x false t t') same gone),
      )
  RolledBack-remove_peer k before t (some x, t') h set stays =
      inr (λ e. cc, SetTo-same wg laws cfg.wg_interface k true before t t' set stays)

  -- what a run that ends with a result leaves of the state before it
  abbrev pub Leaves : Outside S T → Result PeerAddError Added × Outside S T → Type 0
  Leaves o (ok r, after) =
      (k : Bytes) × (parse_key pubkey ≡ some k)
      × SetTo wg laws cfg.wg_interface k true o.wireguard after.wireguard
  Leaves o (err (register_failed x), after) =
      (k : Bytes) × (parse_key pubkey ≡ some k)
      × (t : T) × SetTo wg laws cfg.wg_interface k true o.wireguard t
      × RolledBack k o.wireguard t after.wireguard
  Leaves o (err x, after) =
      (laws.has_peer after.wireguard ≡ laws.has_peer o.wireguard)
      × (etcd.contents after.etcd ≡ etcd.contents o.etcd)

  Leaves-print_client_config :
      (o : Outside S T) (ip k : Bytes) (s : S) (t : T) (r : Option Bytes × T)
      → parse_key pubkey ≡ some k
      → SetTo wg laws cfg.wg_interface k true o.wireguard t
      → laws.has_peer r.1 ≡ laws.has_peer t
      → Leaves o (print_client_config e wg u cfg fuel pubkey alias ip r s)
  Leaves-print_client_config o ip k s t (none, t') h set same =
      (k, h, SetTo-same wg laws cfg.wg_interface k true o.wireguard t t' set same)
  Leaves-print_client_config o ip k s t (some key, t') h set same =
      (k, h, SetTo-same wg laws cfg.wg_interface k true o.wireguard t t' set same)

  Leaves-registered :
      (o : Outside S T) (ip k : Bytes) (t : T) (r : Option AddError × S)
      → parse_key pubkey ≡ some k
      → SetTo wg laws cfg.wg_interface k true o.wireguard t
      → Leaves o (registered e wg u cfg fuel pubkey alias ip t r)
  unfolding registered WireguardClient.get_public_key
  Leaves-registered o ip k t (some x, s) h set = (
    k,
    h,
    t,
    set,
    RolledBack-remove_peer k o.wireguard t
        (WireguardClient.remove_peer wg cfg.wg_interface pubkey t) h set
        (RemovedOr-remove_peer wg laws cfg.wg_interface pubkey t),
  )
  Leaves-registered o ip k t (none, s) h set =
      Leaves-print_client_config o ip k s t (WireguardClient.get_public_key wg cfg.wg_interface t) h
        set (laws.device_reads t cfg.wg_interface)

  Leaves-in_wireguard :
      (o : Outside S T) (ip : Bytes) (s : S) (t : T) (r : Option WireguardError × T)
      → AddedOr wg laws cfg.wg_interface pubkey t r
      → laws.has_peer t ≡ laws.has_peer o.wireguard
      → etcd.contents s ≡ etcd.contents o.etcd
      → Leaves o (in_wireguard e wg u cfg fuel pubkey alias ip s r)
  unfolding in_wireguard
  Leaves-in_wireguard o ip s t (some x, t') same before kept = (same ∙ before, kept)
  Leaves-in_wireguard o ip s t (none, t') (k, h, set) before kept =
      Leaves-registered o ip k t' (EtcdClient.add_peer e (peer_info pubkey ip alias) s) h
        (λ j x. set j x ∙ rw before refl)

  Leaves-with_client :
      (o : Outside S T) (ip : Bytes) (s : S) (r : Bool × T)
      → laws.has_peer r.1 ≡ laws.has_peer o.wireguard
      → etcd.contents s ≡ etcd.contents o.etcd
      → Leaves o (with_client e wg u cfg fuel pubkey alias ip s r)
  unfolding with_client
  Leaves-with_client o ip s (false, t) before kept = (before, kept)
  Leaves-with_client o ip s (true, t) before kept =
      Leaves-in_wireguard o ip s t (WireguardClient.add_peer wg cfg.wg_interface pubkey ip t)
        (AddedOr-add_peer wg laws cfg.wg_interface pubkey ip t) before kept

  Leaves-with_ip :
      (o : Outside S T) (r : (Option AllocateError × Bytes) × S)
      → etcd.contents r.1 ≡ etcd.contents o.etcd
      → Leaves o (with_ip e wg u cfg fuel pubkey alias o.wireguard r)
  unfolding with_ip
  Leaves-with_ip o ((some x, ip), s) kept = (refl, kept)
  Leaves-with_ip o ((none, ip), s) kept =
      Leaves-with_client o ip s (wg.connect o.wireguard) (laws.connect_reads o.wireguard) kept

  -- A run of `peer add` that succeeds has set the peer in WireGuard and left all its other peers. If
  -- the registration in etcd failed, the peer is removed again, also where WireGuard had it before
  -- the run, if WireGuard takes the removal, and is there if WireGuard does not take it. With any other error
  -- neither WireGuard's peers nor etcd have changed.
  pub run_peer_add-Leaves :
      (etcd_client : Bool) (wg_ip : Bytes) (o : Outside S T)
      → Leaves o (run_peer_add e wg u cfg fuel pubkey alias etcd_client wg_ip o)
  unfolding run_peer_add
  run_peer_add-Leaves etcd_client wg_ip o = elim (Option-cases (validate_alias u alias)) [
    | inr (x, bad) ↦ rw (run_peer_add, bad) (refl, refl)
    | inl good ↦ elim (Bool-cases etcd_client) [
      | inr failed ↦ rw (run_peer_add, good, failed) (refl, refl)
      | inl connected ↦
          rw (run_peer_add, good, connected)
            (Leaves-with_ip o (chosen_ip e wg u cfg fuel pubkey alias wg_ip o.etcd)
              (contents-chosen_ip e wg etcd u cfg fuel pubkey alias wg_ip o.etcd))
    ]
  ]
