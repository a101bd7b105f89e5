-- ===== src/Ctl/Allocation/Used.antt =====
-- The list of the used addresses holds what the keys of the peers' addresses hold.
use valon.Prelude.{
  ◌≡◌, refl, ap, true, ◌||◌, Option, none, some, List, [], ◌∷◌, Bytes, codes, ◌≟◌, ≟_iff, ≟_refl,
  arith, Bool-cases, inl, inr,
}
use mathlib.Core.Option
use valon.Text.{has_suffix}
use valon.Etcd.{KeyValue, find, IsDistinct}
use valon.Ctl.Allocation.{used_ips, is_used}

-- an entry for a peer's address that holds the text
pub record HeldBy (m : Bytes → Option Bytes) (text : Bytes) : Type 0 where
  pub key : Bytes
  pub of_address : has_suffix key (codes "/wg_ip") ≡ true
  pub holds : m key ≡ some text

-- every entry counts
pub is_used-find :
    (kvs : List KeyValue) (j text : Bytes)
    → has_suffix j (codes "/wg_ip") ≡ true
    → find kvs j ≡ some text
    → is_used (used_ips kvs) text ≡ true
unfolding used_ips is_used
is_used-find [] j text h e = absurd cc
is_used-find ((k, v) ∷ kvs) j text h e = elim (Bool-cases (k ≟ j)) [
  | inl same ↦
      let here : v ≡ text = Option.some_inj.0 (rw same at e) in
      let suffix : has_suffix k (codes "/wg_ip") ≡ true = rw (← (≟_iff k j).0 same) at h in
      rw (used_ips, suffix) (rw here (rw (≟_refl text) refl))
  | inr other ↦ let ih = is_used-find kvs j text h (rw other at e) in ground (arith, ih)
]

HeldBy-later :
    (k v text : Bytes) (kvs : List KeyValue)
    → find kvs k ≡ none
    → HeldBy (find kvs) text
    → HeldBy (find ((k, v) ∷ kvs)) text
HeldBy-later k v text kvs once h = record {
  key = h.key;
  of_address = h.of_address;
  holds = elim (Bool-cases (k ≟ h.key)) [
    | inl same ↦
        let gone : find kvs h.key ≡ none = rw (← (≟_iff k h.key).0 same) once in
        absurd (ground (arith, h.holds))
    | inr other ↦ rw other h.holds
  ];
}

-- and only they
pub find-is_used :
    (kvs : List KeyValue) (text : Bytes)
    → IsDistinct kvs
    → is_used (used_ips kvs) text ≡ true
    → HeldBy (find kvs) text
unfolding used_ips is_used
find-is_used [] text d h = absurd cc
find-is_used ((k, v) ∷ kvs) text d h = elim (Bool-cases (has_suffix k (codes "/wg_ip"))) [
  | inr other ↦
      HeldBy-later k v text kvs d.0 (find-is_used kvs text d.1 (rw (used_ips, other) at h))
  | inl address ↦
      let cases : (v ≟ text || is_used (used_ips kvs) text) ≡ true = rw (used_ips, address) at h in
      elim (Bool-cases (v ≟ text)) [
        | inl same ↦ record {
          key = k;
          of_address = address;
          holds = rw (≟_refl k) (ap some ((≟_iff v text).0 same));
        }
        | inr other ↦ HeldBy-later k v text kvs d.0 (find-is_used kvs text d.1 (rw other at cases))
      ]
]
