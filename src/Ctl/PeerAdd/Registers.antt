-- ===== src/Ctl/PeerAdd/Registers.antt =====
-- What a run of `valonctl peer add` that succeeds has registered in etcd.
use valon.Prelude.{
  ◌⊎◌, subst, ℕ, ◌≡◌, ≟_iff, ne_of_≟, ◌≢◌, refl, ap, sym, ◌∙◌, inl, inr, Bool, true, false, Option,
  none, some, [], ◌++◌, codes, Bytes, Result, ok, err, ◌≟◌, Bool-cases, Option-cases,
}
use valon.Text.{Unicode}
use valon.Etcd.{Etcd, IsEtcd, write_all}
use valon.Net.Cidr.{IpNet, parse_cidr}
use valon.Ctl.Allocation.Found.{IsAvailable, allocate_ip-IsAvailable}
use valon.Wireguard.{Wgctrl}
use valon.Ctl.Config.{Config}
use valon.Ctl.Validation.{validate_alias}
use valon.Ctl.EtcdClient.{AddError, alias_path, added_keys, add_peer}
use valon.Ctl.Allocation.{AllocateError, allocate_ip}
use valon.Ctl.WireguardClient
use valon.Ctl.WireguardClient.{WireguardError, parse_key}
use valon.Net.Addr.{parse_ip}
use valon.Net.HostRoute.{IsSome, parse_cidr-parse_ip}
use valon.Ctl.EtcdClient.Committed.{Registered-add_peer}
use valon.Ctl.PeerAdd.Leaves.{contents-chosen_ip}
use valon.Ctl.PeerAdd.{
  Outside, PeerAddError, Added, peer_info, chosen_ip, print_client_config, registered, in_wireguard,
  with_client, with_ip, run_peer_add,
}

module _ {S T : Type 0} (e : Etcd S) (wg : Wgctrl T) (etcd : IsEtcd e) (u : Unicode) (cfg : Config)
    (fuel : ℕ) (pubkey alias : Bytes) where
  -- what the result says has come about
  abbrev Succeeds :
      (Bytes → Type 0) → Outside S T → Result PeerAddError Added × Outside S T → Type 0
  Succeeds Q o (err x, after) = Unit
  Succeeds Q o (ok added, after) =
      Q added.0
      × (etcd.contents o.etcd (alias_path alias) ≡ none)
      × (etcd.contents after.etcd
          ≡ write_all (etcd.contents o.etcd) (added_keys (peer_info pubkey added.0 alias)))

  module _ (Q : Bytes → Type 0) (o : Outside S T) where
    Succeeds-print_client_config :
        (ip : Bytes) (s : S) (r : Option Bytes × T)
        → Q ip
        → (etcd.contents o.etcd (alias_path alias) ≡ none)
          × (etcd.contents s
              ≡ write_all (etcd.contents o.etcd) (added_keys (peer_info pubkey ip alias)))
        → Succeeds Q o (print_client_config e wg u cfg fuel pubkey alias ip r s)
    Succeeds-print_client_config ip s (none, t) q h = (q, h.0, h.1)
    Succeeds-print_client_config ip s (some key, t) q h = (q, h.0, h.1)

    Succeeds-registered :
        (ip : Bytes) (t : T) (r : Option AddError × S)
        → Q ip
        → (r.0 ≡ none
            → (etcd.contents o.etcd (alias_path alias) ≡ none)
              × (etcd.contents r.1
                  ≡ write_all (etcd.contents o.etcd) (added_keys (peer_info pubkey ip alias))))
        → Succeeds Q o (registered e wg u cfg fuel pubkey alias ip t r)
    unfolding registered
    Succeeds-registered ip t (some x, s) q h = tt
    Succeeds-registered ip t (none, s) q h = Succeeds-print_client_config ip s _ q (h refl)

    Succeeds-in_wireguard :
        (ip : Bytes) (s : S) (r : Option WireguardError × T)
        → (r.0 ≡ none → Q ip)
        → etcd.contents s ≡ etcd.contents o.etcd
        → Succeeds Q o (in_wireguard e wg u cfg fuel pubkey alias ip s r)
    unfolding in_wireguard
    Succeeds-in_wireguard ip s (some x, t) q same = tt
    Succeeds-in_wireguard ip s (none, t) q same =
        Succeeds-registered ip t (add_peer e (peer_info pubkey ip alias) s) (q refl) (λ done.
          let (free, wrote) = Registered-add_peer e etcd (peer_info pubkey ip alias) s done in
          (
            ap (λ m. m (alias_path alias)) (sym same) ∙ free,
            wrote ∙ ap (λ m. write_all m (added_keys (peer_info pubkey ip alias))) same,
          ))

    Succeeds-with_client :
        (ip : Bytes) (s : S) (r : Bool × T)
        → ((t : T) → (WireguardClient.add_peer wg cfg.wg_interface pubkey ip t).0 ≡ none → Q ip)
        → etcd.contents s ≡ etcd.contents o.etcd
        → Succeeds Q o (with_client e wg u cfg fuel pubkey alias ip s r)
    unfolding with_client
    Succeeds-with_client ip s (false, t) q same = tt
    Succeeds-with_client ip s (true, t) q same = Succeeds-in_wireguard ip s _ (q t) same

    Succeeds-with_ip :
        (r : (Option AllocateError × Bytes) × S)
        → ((ip : Bytes) (t : T)
            → r.0 ≡ (none, ip)
            → (WireguardClient.add_peer wg cfg.wg_interface pubkey ip t).0 ≡ none
            → Q ip)
        → etcd.contents r.1 ≡ etcd.contents o.etcd
        → Succeeds Q o (with_ip e wg u cfg fuel pubkey alias o.wireguard r)
    unfolding with_ip
    Succeeds-with_ip ((some x, ip), s) q same = tt
    Succeeds-with_ip ((none, ip), s) q same = Succeeds-with_client ip s _ (λ t. q ip t refl) same

  Succeeds-run_peer_add :
      (Q : Bytes → Type 0) (etcd_client : Bool) (wg_ip : Bytes) (o : Outside S T)
      → ((ip : Bytes) (t : T)
          → (chosen_ip e wg u cfg fuel pubkey alias wg_ip o.etcd).0 ≡ (none, ip)
          → (WireguardClient.add_peer wg cfg.wg_interface pubkey ip t).0 ≡ none
          → Q ip)
      → Succeeds Q o (run_peer_add e wg u cfg fuel pubkey alias etcd_client wg_ip o)
  unfolding run_peer_add
  Succeeds-run_peer_add Q etcd_client wg_ip o q = elim (Option-cases (validate_alias u alias)) [
    | inr (x, bad) ↦ rw (run_peer_add, bad) tt
    | inl good ↦ elim (Bool-cases etcd_client) [
      | inr failed ↦ rw (run_peer_add, good, failed) tt
      | inl connected ↦
          rw (run_peer_add, good, connected)
            (Succeeds-with_ip Q o (chosen_ip e wg u cfg fuel pubkey alias wg_ip o.etcd) q
              (contents-chosen_ip e wg etcd u cfg fuel pubkey alias wg_ip o.etcd))
    ]
  ]

  -- the configured network, and an address of it that no peer in etcd has
  pub record Allocated (s : S) (ip : Bytes) : Type 0 where
    pub first : Bytes
    pub net : IpNet
    pub parsed : parse_cidr cfg.network ≡ some (first, net)
    pub available : IsAvailable net (etcd.contents s) ip

  -- with a flag its address, and without one an address that is allocated
  abbrev pub ChosenIp : Bytes → S → Bytes → Type 0
  ChosenIp wg_ip s ip = ((wg_ip ≢ []) × (ip ≡ wg_ip)) ⊎ ((wg_ip ≡ []) × Allocated s ip)

  Allocated-allocate_ip :
      (ip : Bytes) (s : S) → (allocate_ip e fuel cfg.network s).0 ≡ (none, ip) → Allocated s ip
  unfolding allocate_ip
  Allocated-allocate_ip ip s h = elim (Option-cases (parse_cidr cfg.network)) [
    | inl bad ↦ let never = ap (λ r. r.0) (rw (allocate_ip, bad) at h) in absurd (cc never)
    | inr ((first, net), parsed) ↦ record {
      first = first;
      net = net;
      parsed = parsed;
      available = allocate_ip-IsAvailable e etcd fuel cfg.network first net s ip parsed h;
    }
  ]

  ChosenIp-chosen_ip :
      (wg_ip ip : Bytes) (s : S)
      → (chosen_ip e wg u cfg fuel pubkey alias wg_ip s).0 ≡ (none, ip)
      → ChosenIp wg_ip s ip
  ChosenIp-chosen_ip wg_ip ip s h = elim (Bool-cases (wg_ip ≟ [])) [
    | inl empty ↦ inr ((≟_iff wg_ip []).0 empty, Allocated-allocate_ip ip s (rw empty at h))
    | inr given ↦
        let same : (none, wg_ip) ≡ (none, ip) = rw given at h in
        inl (ne_of_≟ wg_ip [] given, sym (ap (λ r. r.1) same))
  ]

  added_or : Added → Result PeerAddError Added → Added
  added_or other (ok added) = added
  added_or other (err x) = other

  Succeeds-ok :
      (Q : Bytes → Type 0) (o : Outside S T) (added : Added)
      (r : Result PeerAddError Added × Outside S T)
      → r.0 ≡ ok added
      → Succeeds Q o r
      → Q added.0
        × (etcd.contents o.etcd (alias_path alias) ≡ none)
        × (etcd.contents r.1.etcd
            ≡ write_all (etcd.contents o.etcd) (added_keys (peer_info pubkey added.0 alias)))
  unfolding added_or
  Succeeds-ok Q o added (err x, after) h s = absurd cc
  Succeeds-ok Q o added (ok other, after) h s =
      let same : other ≡ added = ap (added_or added) h in
      subst
        (λ a.
          Q a.0
          × (etcd.contents o.etcd (alias_path alias) ≡ none)
          × (etcd.contents after.etcd
              ≡ write_all (etcd.contents o.etcd) (added_keys (peer_info pubkey a.0 alias))))
        same s

  IsSome-add_peer :
      (ip : Bytes) (t : T)
      → (WireguardClient.add_peer wg cfg.wg_interface pubkey ip t).0 ≡ none
      → IsSome (parse_ip ip)
  unfolding WireguardClient.add_peer
  IsSome-add_peer ip t h = elim (Option-cases (parse_key pubkey)) [
    | inl bad ↦ let never = rw (WireguardClient.add_peer, bad) at h in absurd (cc never)
    | inr (k, good) ↦ elim (Option-cases (parse_cidr (ip ++ codes "/32"))) [
      | inl bad ↦ let never = rw (WireguardClient.add_peer, good, bad) at h in absurd (cc never)
      | inr (r, parsed) ↦ parse_cidr-parse_ip ip r parsed
    ]
  ]

  -- what a run that succeeds has written, and that the address it prints is an IP
  pub run_peer_add-written :
      (etcd_client : Bool) (wg_ip : Bytes) (o : Outside S T) (added : Added)
      → (run_peer_add e wg u cfg fuel pubkey alias etcd_client wg_ip o).0 ≡ ok added
      → IsSome (parse_ip added.0)
        × (etcd.contents o.etcd (alias_path alias) ≡ none)
        × (etcd.contents (run_peer_add e wg u cfg fuel pubkey alias etcd_client wg_ip o).1.etcd
            ≡ write_all (etcd.contents o.etcd) (added_keys (peer_info pubkey added.0 alias)))
  run_peer_add-written etcd_client wg_ip o added done =
      Succeeds-ok (λ ip. IsSome (parse_ip ip)) o added _ done
        (Succeeds-run_peer_add (λ ip. IsSome (parse_ip ip)) etcd_client wg_ip o
          (λ ip t h. IsSome-add_peer ip t))

  -- A run of `peer add` that succeeds has written the keys of the peer to etcd and nothing else,
  -- under an alias that was free and is spelled as on the command line, with the address of the
  -- flag, or without one with an address of the configured network that no peer in etcd had.
  pub run_peer_add-registers :
      (etcd_client : Bool) (wg_ip : Bytes) (o : Outside S T) (added : Added)
      → (run_peer_add e wg u cfg fuel pubkey alias etcd_client wg_ip o).0 ≡ ok added
      → ChosenIp wg_ip o.etcd added.0
        × (etcd.contents o.etcd (alias_path alias) ≡ none)
        × (etcd.contents (run_peer_add e wg u cfg fuel pubkey alias etcd_client wg_ip o).1.etcd
            ≡ write_all (etcd.contents o.etcd) (added_keys (peer_info pubkey added.0 alias)))
  run_peer_add-registers etcd_client wg_ip o added done =
      Succeeds-ok (ChosenIp wg_ip o.etcd) o added _ done (
        Succeeds-run_peer_add (ChosenIp wg_ip o.etcd) etcd_client wg_ip o
          (λ ip t h ok'. ChosenIp-chosen_ip wg_ip ip o.etcd h))
