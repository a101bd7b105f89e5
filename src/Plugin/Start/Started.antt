-- ===== src/Plugin/Start/Started.antt =====
-- The state in which a start leaves the plugin.
use valon.Prelude.{
  ℕ, ◌≡◌, refl, ◌∙◌, inl, inr, Option, none, some, List, [], Bytes, codes, ◌≟◌, ≟_refl, Bool-cases,
  Option-cases,
}
use valon.Text.{Unicode}
use valon.Etcd.{Etcd}
use valon.Wireguard.{Wgctrl}
use valon.Plugin.Cache
use valon.Plugin.Cache.{PeerInfo, PeerCache, new_peer_cache}
use valon.Plugin.Cache.Laws.{get-set}
use valon.Plugin.Cache.Valid.{IsValid, new_peer_cache-IsValid, IsValid-set}
use valon.Plugin.World.{World, Config}
use valon.Plugin.Load.Valid.{IsValid-load_from_etcd}
use valon.Plugin.Node.{Reaches}
use valon.Plugin.Node.Invariant.{Reaches-IsValid}
use valon.Plugin.Start.{
  Host, Node, self_info, get_own_wireguard_ip, get_own_public_key, registered_self, register_self,
  init,
}

module _ {T : Type 0} (wg : Wgctrl T) {S : Type 0} where
  IsValid-registered_self :
      (host : Host) (i : Bytes) (now : ℕ) (n : Node S T) (r : Option Bytes × T)
      → IsValid n.world.cache
      → IsValid (registered_self wg host i now n r).1.world.cache
  unfolding registered_self
  IsValid-registered_self host i now n (none, t) h = h
  IsValid-registered_self host i now n (some pubkey, t) h =
      elim (Option-cases (get_own_wireguard_ip host i)) [
        | inl missing ↦ rw (registered_self, missing) h
        | inr (ip, found) ↦
            rw (registered_self, found)
              (IsValid-set n.world.cache pubkey now h (self_info pubkey ip now) refl)
      ]

  IsValid-register_self :
      (host : Host) (i : Bytes) (now : ℕ) (n : Node S T)
      → IsValid n.world.cache
      → IsValid (register_self wg host i now n).1.world.cache
  unfolding register_self
  IsValid-register_self host i now n h = elim (Bool-cases (i ≟ [])) [
    | inl empty ↦ rw (register_self, empty) h
    | inr named ↦ elim (Option-cases (host i)) [
      | inl missing ↦ rw (register_self, named, missing) h
      | inr (addrs, found) ↦
          rw (register_self, named, found)
            (IsValid-registered_self host i now n (get_own_public_key wg i n.wireguard) h)
    ]
  ]

  module _ (host : Host) (i : Bytes) (now : ℕ) where
    -- The node is in its cache, under the key that WireGuard last gave for the interface.
    pub record RegisteredSelf (n : Node S T) : Type 0 where
      pub pubkey : Bytes
      pub asked : T
      pub own_key : get_own_public_key wg i asked ≡ (some pubkey, n.wireguard)
      pub cached : Cache.get n.world.cache pubkey ≡ some (self_info pubkey n.self_wg_ip now)
      pub own_ip : get_own_wireguard_ip host i ≡ some n.self_wg_ip

    RegisteredSelf-registered_self :
        (n : Node S T) (t0 : T) (r : Option Bytes × T)
        → get_own_public_key wg i t0 ≡ r
        → (registered_self wg host i now n r).0 ≡ none
        → RegisteredSelf (registered_self wg host i now n r).1
    unfolding registered_self
    RegisteredSelf-registered_self n t0 (none, t) own h = absurd cc
    RegisteredSelf-registered_self n t0 (some pubkey, t) own h =
        elim (Option-cases (get_own_wireguard_ip host i)) [
          | inl missing ↦ let e = rw (registered_self, missing) at h in absurd (cc e)
          | inr (ip, found) ↦
              rw (registered_self, found)
                (record {
                  pubkey = pubkey;
                  asked = t0;
                  own_key = own;
                  cached =
                      get-set n.world.cache pubkey pubkey (self_info pubkey ip now) now
                      ∙ rw (≟_refl pubkey) refl;
                  own_ip = found;
                })
        ]

    RegisteredSelf-register_self :
        (n : Node S T)
        → (register_self wg host i now n).0 ≡ none
        → RegisteredSelf (register_self wg host i now n).1
    unfolding register_self
    RegisteredSelf-register_self n h = elim (Bool-cases (i ≟ [])) [
      | inl empty ↦ let e = rw (register_self, empty) at h in absurd (cc e)
      | inr named ↦ elim (Option-cases (host i)) [
        | inl missing ↦ let e = rw (register_self, named, missing) at h in absurd (cc e)
        | inr (addrs, found) ↦
            rw (register_self, named, found)
              (RegisteredSelf-registered_self n n.wireguard (get_own_public_key wg i n.wireguard)
                refl (rw (register_self, named, found) at h))
      ]
    ]

  module _ (e : Etcd S) (host : Host) (i : Bytes) (now : ℕ)
      (get_all : PeerCache → List (Bytes × PeerInfo)) (s : S) (t : T) where
    pub init-IsValid : IsValid (init wg e host i now get_all s t).1.world.cache
    unfolding init
    init-IsValid = IsValid-register_self host i now _ (
        IsValid-load_from_etcd e now
          (record { cache = new_peer_cache; etcd = (e.get s (codes "/valon/health")).1 })
          new_peer_cache-IsValid)

    -- However a start of the plugin goes, and however its handlers and loops follow one another
    -- after it, the keys of the cache are distinct and every peer is stored under its own key.
    pub init-Reaches-IsValid :
        (u : Unicode) (v : Config) (y : World S)
        → Reaches e u v (init wg e host i now get_all s t).1.world y
        → IsValid y.cache
    init-Reaches-IsValid u v y run = Reaches-IsValid e u v _ y run init-IsValid

    -- A start without an error leaves the node itself in the cache, under the public key of the
    -- interface, marked for the next synchronisation, with the first IPv4 address of the interface,
    -- which is also the one that the authorization takes for the Discovery Role's.
    pub init_self :
        (init wg e host i now get_all s t).0 ≡ none
        → RegisteredSelf host i now (init wg e host i now get_all s t).1
    unfolding init
    init_self done = RegisteredSelf-register_self host i now _ done
