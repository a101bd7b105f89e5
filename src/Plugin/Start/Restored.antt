-- ===== src/Plugin/Start/Restored.antt =====
-- What the restoration of peers leaves in WireGuard.
use valon.Prelude.{
  ◌⊎◌, ◌≡◌, refl, ap, sym, ◌∙◌, inl, inr, Bool, true, false, ◌||◌, Option, none, some, List, [],
  ◌∷◌, map, Bytes, codes, ◌++◌, length, ◌==◌, ◌≟◌, ≟_refl, arith, Bool-cases, Option-cases,
}
use mathlib.Core.Option
use valon.Base64
use valon.Net.Cidr.{parse_cidr}
use valon.Wireguard.{Wgctrl, IsWgctrl, Device, PeerConfig, has_bytes}
use valon.Plugin.Cache.{PeerInfo}
use valon.Plugin.Start.{
  restored_config, open_device, restore_peer, restore_peers, restore_into, restore_wireguard_peers,
}

-- the configuration has the key
abbrev pub has_key : Option PeerConfig → Bytes → Bool
has_key none k = false
has_key (some c) k = c.public_key ≟ k

-- Some peer of the list has this key, in base64, and an address that can be read.
unfoldable pub restores : List (Bytes × PeerInfo) → Bytes → Bool
restores [] k = false
restores ((pubkey, peer) ∷ peers) k =
    has_key (restored_config peer.wg_ip peer.pub_key) k || restores peers k

pub restored_config-key :
    (wg_ip pub_key : Bytes) (c : PeerConfig)
    → restored_config wg_ip pub_key ≡ some c
    → (c.remove ≡ false) × (Base64.decode pub_key ≡ some c.public_key)
unfolding restored_config
restored_config-key wg_ip pub_key c h = elim (Option-cases (parse_cidr (wg_ip ++ codes "/32"))) [
  | inl bad ↦ let e : none ≡ some c = rw (restored_config, bad) at h in absurd cc
  | inr ((ip, net), good) ↦ elim (Option-cases (Base64.decode pub_key)) [
    | inl bad ↦ let e : none ≡ some c = rw (restored_config, good, bad) at h in absurd cc
    | inr (bytes, decoded) ↦ elim (Bool-cases (length bytes == 32)) [
      | inr long ↦
          let e : none ≡ some c = rw (restored_config, good, decoded, long) at h in absurd cc
      | inl fits ↦
          let e = Option.some_inj.0 (rw (restored_config, good, decoded, fits) at h) in
          (ap (λ x. x.remove) (sym e), decoded ∙ ap (λ x. some (x.public_key)) e)
    ]
  ]
]

-- What was there before is there after; what is there after was there before or is extra.
abbrev pub Between : Bool → Bool → Bool → Type 0
Between before extra after =
    (before ≡ true → after ≡ true) × (after ≡ true → (extra || before) ≡ true)

Between-same : (b extra : Bool) → Between b extra b
Between-same b extra = (λ h. h, λ h. ground arith)

Between-then :
    (before x middle y after : Bool)
    → Between before x middle
    → Between middle y after
    → Between before (x || y) after
Between-then before x middle y after (keep, only) (keep', only') =
    (λ h. keep' (keep h), λ h. or_cases before x middle y (only' h) only)
  where
    or_cases :
        (before x middle y : Bool)
        → (y || middle) ≡ true
        → (middle ≡ true → (x || before) ≡ true)
        → ((x || y) || before) ≡ true
    or_cases before true middle y h k = refl
    or_cases before false middle true h k = refl
    or_cases before false true false h k = k refl
    or_cases before false false false h k = absurd cc

module _ {T : Type 0} (wg : Wgctrl T) (laws : IsWgctrl wg) (i : Bytes) where
  pub has_peer-added :
      (t : T) (c : PeerConfig) (k : Bytes)
      → c.remove ≡ false
      → (wg.configure_device t i c).0 ≡ true
      → laws.has_peer (wg.configure_device t i c).1 i k ≡ (c.public_key ≟ k || laws.has_peer t i k)
  has_peer-added t c k adds done =
      laws.configure_changes t i c done i k ∙ rw (≟_refl i) (simp adds (ground arith))

  Between-configured :
      (t : T) (c : PeerConfig) (k : Bytes)
      → c.remove ≡ false
      → Between
          (laws.has_peer t i k)
          (c.public_key ≟ k)
          (laws.has_peer (wg.configure_device t i c).1 i k)
  Between-configured t c k adds = elim (Bool-cases (wg.configure_device t i c).0) [
    | inr failed ↦ rw (laws.configure_fails t i c failed) (Between-same _ _)
    | inl done ↦ rw (has_peer-added t c k adds done) (λ h. ground arith, λ h. h)
  ]

  pub Between-restore_peer :
      (existing : List Bytes) (peer : PeerInfo) (t : T) (k : Bytes)
      → Between
          (laws.has_peer t i k)
          (has_key (restored_config peer.wg_ip peer.pub_key) k)
          (laws.has_peer (restore_peer wg i existing peer t) i k)
  unfolding restore_peer
  Between-restore_peer existing peer t k = elim (Bool-cases (has_bytes existing peer.pub_key)) [
    | inl there ↦ rw (restore_peer, there) (Between-same _ _)
    | inr missing ↦ elim (Option-cases (restored_config peer.wg_ip peer.pub_key)) [
      | inl bad ↦ rw (restore_peer, missing, bad) (Between-same _ (has_key none k))
      | inr (c, good) ↦
          let adds = (restored_config-key peer.wg_ip peer.pub_key c good).0 in
          rw (restore_peer, missing, good) (Between-configured t c k adds)
    ]
  ]

  pub Between-restore_peers :
      (existing : List Bytes) (peers : List (Bytes × PeerInfo)) (t : T) (k : Bytes)
      → Between
          (laws.has_peer t i k)
          (restores peers k)
          (laws.has_peer (restore_peers wg i existing peers t) i k)
  unfolding restore_peers restores
  Between-restore_peers existing [] t k = Between-same _ (restores [] k)
  Between-restore_peers existing ((pubkey, peer) ∷ peers) t k =
      Between-then _ _ (laws.has_peer (restore_peer wg i existing peer t) i k) _ _
        (Between-restore_peer existing peer t k)
        (Between-restore_peers existing peers (restore_peer wg i existing peer t) k)

  has_peer-open_device : (r : Bool × T) → laws.has_peer (open_device wg i r).1 ≡ laws.has_peer r.1
  unfolding open_device
  has_peer-open_device (false, t) = refl
  has_peer-open_device (true, t) = laws.device_reads t i

  Between-restore_into :
      (before : Bool) (peers : List (Bytes × PeerInfo)) (k : Bytes) (r : Option Device × T)
      → laws.has_peer r.1 i k ≡ before
      → Between before (restores peers k) (laws.has_peer (restore_into wg i peers r).1 i k)
  unfolding restore_into
  Between-restore_into before peers k (none, t) h = rw (← h) (Between-same _ _)
  Between-restore_into before peers k (some d, t) h =
      rw (← h) (Between-restore_peers (map Base64.encode d.peers) peers t k)

  pub restore_wireguard_peers-Between :
      (peers : List (Bytes × PeerInfo)) (t : T) (k : Bytes)
      → Between
          (laws.has_peer t i k)
          (restores peers k)
          (laws.has_peer (restore_wireguard_peers wg i peers t).1 i k)
  unfolding restore_wireguard_peers
  restore_wireguard_peers-Between [] t k = Between-same _ (restores [] k)
  restore_wireguard_peers-Between (p ∷ peers) t k =
      Between-restore_into _ (p ∷ peers) k (open_device wg i (wg.connect t))
        (ap (λ f. f i k) (has_peer-open_device (wg.connect t) ∙ laws.connect_reads t))

  -- The restoration changes of the peers of an interface at most this: a key that was not there is
  -- there, and it is the one that a peer of the cache spells in base64, beside an address that can
  -- be read. It removes no peer, whether WireGuard answers or not.
  pub restore_wireguard_peers-adds :
      (peers : List (Bytes × PeerInfo)) (t : T) (k : Bytes)
      → (laws.has_peer (restore_wireguard_peers wg i peers t).1 i k ≡ laws.has_peer t i k)
        ⊎ ((laws.has_peer t i k ≡ false)
            × (laws.has_peer (restore_wireguard_peers wg i peers t).1 i k ≡ true)
            × (restores peers k ≡ true))
  restore_wireguard_peers-adds peers t k =
      by_cases _ _ _ (restore_wireguard_peers-Between peers t k)
    where
      by_cases :
          (before extra after : Bool)
          → Between before extra after
          → (after ≡ before) ⊎ ((before ≡ false) × (after ≡ true) × (extra ≡ true))
      by_cases true extra after (keep, only) = inl (keep refl)
      by_cases false extra false h = inl refl
      by_cases false true true h = inr (refl, refl, refl)
      by_cases false false true (keep, only) = inl (sym (only refl))
