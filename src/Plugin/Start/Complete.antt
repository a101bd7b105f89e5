-- ===== src/Plugin/Start/Complete.antt =====
-- The restoration brings back every peer of the cache that can be read.
use valon.Prelude.{
  ◌≡◌, ◌≢◌, refl, ap, sym, ◌∙◌, inl, inr, Bool, true, false, ◌||◌, Option, none, some, List, [],
  ◌∷◌, map, Bytes, All, ◌≟◌, ≟_iff, ≟_refl, arith, Bool-cases, Option-cases,
}
use mathlib.Core.Option
use valon.Base32.RoundTrip.{IsByte}
use valon.Base64
use valon.Base64.RoundTrip.{decode-encode}
use valon.Wireguard.{Wgctrl, IsWgctrl, Device, PeerConfig, has_bytes}
use valon.Plugin.Cache.{PeerInfo}
use valon.Plugin.Start.Restored.{
  has_key, restores, restored_config-key, Between, has_peer-added, Between-restore_peer,
  Between-restore_peers, restore_wireguard_peers-Between,
}
use valon.Plugin.Start.{
  restored_config, open_device, restore_peer, restore_peers, restore_into, restore_wireguard_peers,
}

has_bytes-decoded :
    (pub_key k : Bytes)
    → Base64.decode pub_key ≡ some k
    → (xs : List Bytes) → All (All IsByte) xs
    → has_bytes (map Base64.encode xs) pub_key ≡ true
    → has_bytes xs k ≡ true
unfolding has_bytes
has_bytes-decoded pub_key k decoded [] all h = absurd cc
has_bytes-decoded pub_key k decoded (x ∷ xs) all h = elim (Bool-cases (Base64.encode x ≟ pub_key)) [
  | inl same ↦
      let e : some x ≡ some k =
        sym (decode-encode x all.0) ∙ ap Base64.decode ((≟_iff _ pub_key).0 same) ∙ decoded in
      rw (Option.some_inj.0 e, ≟_refl k) refl
  | inr other ↦ ground (arith, has_bytes-decoded pub_key k decoded xs all.1 (rw other at h))
]

full :
    (before extra after : Bool)
    → Between before extra after
    → (extra ≡ true → after ≡ true)
    → after ≡ (extra || before)
full before true after (keep, only) more = more refl
full true false after (keep, only) more = keep refl
full false false true (keep, only) more = sym (only refl)
full false false false (keep, only) more = refl

none_wanted : (k : Bytes) → restores [] k ≢ true
unfolding restores
none_wanted k h = cc

module _ {T : Type 0} (wg : Wgctrl T) (laws : IsWgctrl wg) (i : Bytes) where
  Known : List Bytes → T → Type 0
  Known existing t =
      (pub_key k : Bytes)
      → has_bytes existing pub_key ≡ true
      → Base64.decode pub_key ≡ some k
      → laws.has_peer t i k ≡ true

  module _ (accepts : (t : T) (c : PeerConfig) → (wg.configure_device t i c).0 ≡ true) where
    restore_peer-restores :
        (existing : List Bytes) (peer : PeerInfo) (t : T) (k : Bytes)
        → Known existing t
        → has_key (restored_config peer.wg_ip peer.pub_key) k ≡ true
        → laws.has_peer (restore_peer wg i existing peer t) i k ≡ true
    unfolding restore_peer Known
    restore_peer-restores existing peer t k known wanted =
        elim (Option-cases (restored_config peer.wg_ip peer.pub_key)) [
          | inl bad ↦ let e : false ≡ true = rw bad at wanted in absurd cc
          | inr (c, good) ↦
              let same : c.public_key ≟ k ≡ true = rw good at wanted in
              let (adds, decoded) = restored_config-key peer.wg_ip peer.pub_key c good in
              elim (Bool-cases (has_bytes existing peer.pub_key)) [
                | inl there ↦
                    rw (restore_peer, there)
                      (known peer.pub_key k there
                        (decoded ∙ ap some ((≟_iff c.public_key k).0 same)))
                | inr missing ↦
                    rw (restore_peer, missing, good)
                      (has_peer-added wg laws i t c k adds (accepts t c) ∙ rw same refl)
              ]
        ]

    restore_peers-restores :
        (existing : List Bytes) (peers : List (Bytes × PeerInfo)) (t : T) (k : Bytes)
        → Known existing t
        → restores peers k ≡ true
        → laws.has_peer (restore_peers wg i existing peers t) i k ≡ true
    unfolding restore_peers restores Known
    restore_peers-restores existing [] t k known wanted = absurd cc
    restore_peers-restores existing ((pubkey, peer) ∷ peers) t k known wanted =
        let t' = restore_peer wg i existing peer t in
        elim (Bool-cases (has_key (restored_config peer.wg_ip peer.pub_key) k)) [
          | inl here ↦
              (Between-restore_peers wg laws i existing peers t' k).0
                (restore_peer-restores existing peer t k known here)
          | inr later ↦
              restore_peers-restores existing peers t' k
                (λ pk j there decoded.
                  (Between-restore_peer wg laws i existing peer t j).0 (known pk j there decoded))
                (rw later at wanted)
        ]

    Known-peers :
        (d : Device) (t : T)
        → All (All IsByte) d.peers
        → ((k : Bytes) → has_bytes d.peers k ≡ laws.has_peer t i k)
        → Known (map Base64.encode d.peers) t
    unfolding Known
    Known-peers d t bytes reads pub_key k there decoded =
        sym (reads k) ∙ has_bytes-decoded pub_key k decoded d.peers bytes there

    open_device-connected : (r : Bool × T) → r.0 ≡ true → open_device wg i r ≡ wg.device r.1 i
    unfolding open_device
    open_device-connected (true, t) h = refl
    open_device-connected (false, t) h = absurd cc

    restore_into-found :
        (peers : List (Bytes × PeerInfo)) (d : Device) (k : Bytes) (r : Option Device × T)
        → r.0 ≡ some d
        → Known (map Base64.encode d.peers) r.1
        → restores peers k ≡ true
        → laws.has_peer (restore_into wg i peers r).1 i k ≡ true
    unfolding restore_into
    restore_into-found peers d k (none, t) h known wanted = absurd cc
    restore_into-found peers d k (some d', t) h known wanted =
        let same : d' ≡ d = Option.some_inj.0 h in
        rw same (restore_peers-restores (map Base64.encode d.peers) peers t k known wanted)

    -- If the interface can be read and takes each configuration, then after the restoration it has
    -- exactly the peers that it had and those of the cache whose key and address can be read.
    restore_wireguard_peers-restores :
        (peers : List (Bytes × PeerInfo)) (t : T) (d : Device) (k : Bytes)
        → (wg.connect t).0 ≡ true
        → (wg.device (wg.connect t).1 i).0 ≡ some d
        → laws.has_peer (restore_wireguard_peers wg i peers t).1 i k
          ≡ (restores peers k || laws.has_peer t i k)
    unfolding restore_wireguard_peers restore_into
    restore_wireguard_peers-restores [] t d k opened read =
        full _ (restores [] k) _ (restore_wireguard_peers-Between wg laws i [] t k)
          (λ wanted. absurd (none_wanted k wanted))
    restore_wireguard_peers-restores (p ∷ peers) t d k opened read =
        full _ (restores (p ∷ peers) k) _
          (restore_wireguard_peers-Between wg laws i (p ∷ peers) t k)
          (λ wanted.
            let found : (open_device wg i (wg.connect t)).0 ≡ some d =
              ap (λ r. r.0) (open_device-connected (wg.connect t) opened) ∙ read in
            restore_into-found (p ∷ peers) d k (open_device wg i (wg.connect t)) found
              (Known-peers d _ (laws.device_keys (wg.connect t).1 i d read) (λ j.
                laws.device_returns (wg.connect t).1 i d read j
                ∙ sym (
                    ap (λ r. laws.has_peer r.1 i j) (open_device-connected (wg.connect t) opened)
                    ∙ ap (λ f. f i j) (laws.device_reads (wg.connect t).1 i))))
              wanted)
