-- ===== src/Tests/Device.antt =====
-- A WireGuard with one interface, wg0, that takes every configuration: what `IsWgctrl` asks can
-- hold.
use valon.Prelude.{
  ◌≡◌, refl, ap, subst, Bool, true, false, not, ◌&&◌, none, some, List, [], ◌∷◌, Bytes, codes, All,
  if◌then◌else◌, ◌≟◌, ≟_iff, arith,
}
use mathlib.Core.Option
use valon.Base32.RoundTrip.{IsByte}
use valon.Wireguard.{Wgctrl, IsWgctrl, Device, PeerConfig, has_bytes}
use valon.Tests.Samples.{key, all_bytes_fit, All-fit}

abbrev pub wg0 : Bytes
wg0 = codes "wg0"

unfoldable pub all_fit : List Bytes → Bool
unfolding all_bytes_fit
all_fit [] = true
all_fit (x ∷ xs) = all_bytes_fit x && all_fit xs

pub All-all_fit : (xs : List Bytes) → all_fit xs ≡ true → All (All IsByte) xs
unfolding all_fit
All-all_fit [] h = tt
All-all_fit (x ∷ xs) h = (All-fit x (ground arith), All-all_fit xs (ground arith))

unfoldable pub dropped : Bytes → List Bytes → List Bytes
dropped k [] = []
dropped k (x ∷ xs) = let rest = dropped k xs in if k ≟ x then rest else x ∷ rest

has_bytes-dropped :
    (k j : Bytes) (xs : List Bytes)
    → has_bytes (dropped k xs) j ≡ (if k ≟ j then false else has_bytes xs j)
unfolding dropped has_bytes
has_bytes-dropped k j [] = ground arith
has_bytes-dropped k j (x ∷ xs) =
    ground (arith, ≟_iff k j, ≟_iff k x, ≟_iff x j, has_bytes-dropped k j xs)

abbrev pub own_key : Bytes
own_key = key

unfoldable pub one_device : Wgctrl (List Bytes)
unfolding all_fit dropped
one_device = record {
  connect = λ t. (true, t);
  device = λ t i.
      (if wg0 ≟ i && all_fit t then some (record { public_key = own_key; peers = t }) else none, t);
  configure_device = λ t i c. (
    wg0 ≟ i,
    if wg0 ≟ i then (if c.remove then dropped c.public_key t else c.public_key ∷ t) else t,
  );
}

pub device_case :
    (b fit : Bool) (t : List Bytes) (d : Device)
    → (if b && fit then some (record { public_key = own_key; peers = t }) else none) ≡ some d
    → (b ≡ true) × (fit ≡ true) × (t ≡ d.peers)
device_case true true t d h = (refl, refl, ap (λ x. x.peers) (Option.some_inj.0 h))
device_case true false t d h = absurd cc
device_case false fit t d h = absurd cc

pub configured :
    (i j k : Bytes) (c : PeerConfig) (t : List Bytes)
    → wg0 ≟ i ≡ true
    → (wg0 ≟ j
        && has_bytes
            (if wg0 ≟ i then (if c.remove then dropped c.public_key t else c.public_key ∷ t) else t)
            k)
      ≡ (if i ≟ j && c.public_key ≟ k then not c.remove else wg0 ≟ j && has_bytes t k)
unfolding has_bytes
configured i j k c t h = rw (h, ← (≟_iff wg0 i).0 h) (by_cases (wg0 ≟ j) c.remove)
  where
    by_cases :
        (here removes : Bool)
        → (here && has_bytes (if removes then dropped c.public_key t else c.public_key ∷ t) k)
          ≡ (if here && c.public_key ≟ k then not removes else here && has_bytes t k)
    by_cases false removes = refl
    by_cases true true = has_bytes-dropped c.public_key k t
    by_cases true false = ground arith

unfoldable pub one_device-IsWgctrl : IsWgctrl one_device
unfolding one_device
one_device-IsWgctrl = record {
  has_peer = λ t i k. wg0 ≟ i && has_bytes t k;
  connect_reads = λ t. refl;
  device_reads = λ t i. refl;
  device_returns = λ t i d h k.
      let (here, fit, peers) = device_case (wg0 ≟ i) (all_fit t) t d h in rw (here, peers) refl;
  device_keys = λ t i d h.
      let (here, fit, peers) = device_case (wg0 ≟ i) (all_fit t) t d h in
      subst (All (All IsByte)) peers (All-all_fit t fit);
  configure_fails = λ t i c failed. rw failed refl;
  configure_changes = λ t i c done j k. configured i j k c t done;
}
