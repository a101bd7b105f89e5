-- ===== src/Ctl/Allocation/Taken.antt =====
-- What etcd holds when an allocation reports that there is no address.
use valon.Prelude.{
  Bool-cases, leb, ℕ, ◌≡◌, ◌⊎◌, refl, subst, Bool, true, false, not, ◌&&◌, ◌||◌, Option, none, some,
  List, Bytes, codes, if◌then◌else◌, arith, Option-cases, inl, inr,
}
use mathlib.Core.Option
use valon.Text.{has_prefix, has_suffix}
use valon.Net.Cidr
use valon.Net.Cidr.{IpNet, parse_cidr, equal}
use valon.Net.IpText.{ip_string}
use valon.Etcd.{Etcd, IsEtcd, KeyValue, Contents}
use valon.Ctl.Address.{increment_ip}
use valon.Ctl.Allocation.{
  peers_path, used_ips, is_used, Search, found, exhausted, out_of_fuel, none_available, search_from,
  search_result, allocate_ip,
}
use valon.Ctl.Allocation.Used.{find-is_used}
use valon.Ctl.Allocation.Answer.{later, Answer, NoneFree, search_ip-Answer}
use valon.Ctl.Allocation.Found.{allocate_ip-parsed}

search_result-exhausted : (r : Search) → (search_result r).0 ≡ some none_available → r ≡ exhausted
search_result-exhausted (found ip) h = absurd cc
search_result-exhausted exhausted h = refl
search_result-exhausted out_of_fuel h = let e = Option.some_inj.0 h in absurd cc

-- A key of a peer's address holds the text.
pub record IsTaken (m : Contents) (text : Bytes) : Type 0 where
  pub key : Bytes
  pub of_peer : has_prefix key peers_path ≡ true
  pub of_address : has_suffix key (codes "/wg_ip") ≡ true
  pub holds : m key ≡ some text

read_back :
    (b : Bool) (x y : Option Bytes) (v : Bytes)
    → x ≡ (if b then y else none)
    → x ≡ some v
    → (b ≡ true) × (y ≡ some v)
read_back true x y v h e = (refl, cc)
read_back false x y v h e = absurd cc

-- Up to the end of the network no address is available.
pub record AllTaken (net : IpNet) (m : Contents) : Type 0 where
  pub steps : ℕ
  pub outside : Cidr.contains net (later steps (increment_ip net.ip)) ≡ false
  pub taken :
      (k : ℕ)
      → let ip = later k (increment_ip net.ip) in
        (leb steps k ≡ true)
        ⊎ ((equal ip net.ip ≡ true)
            ⊎ ((Cidr.contains net (increment_ip ip) ≡ false) ⊎ IsTaken m (ip_string ip)))

not_free-cases :
    (first inside used : Bool)
    → (not (first || not inside) && not used) ≡ false
    → (first ≡ true) ⊎ ((inside ≡ false) ⊎ (used ≡ true))
not_free-cases true inside used h = inl refl
not_free-cases false false used h = inr (inl refl)
not_free-cases false true true h = inr (inr refl)
not_free-cases false true false h = absurd cc

module _ {S : Type 0} (e : Etcd S) where
  module _ (laws : IsEtcd e) where
    held_in_etcd :
        (s : S) (kvs : List KeyValue) (text : Bytes)
        → (e.get_prefix s peers_path).0 ≡ some kvs
        → is_used (used_ips kvs) text ≡ true
        → IsTaken (laws.contents s) text
    held_in_etcd s kvs text got used =
        let h = find-is_used kvs text (laws.get_prefix_distinct s peers_path kvs got) used in
        let back =
          read_back _ _ _ text (laws.get_prefix_returns s peers_path kvs got h.key) h.holds in
        record { key = h.key; of_peer = back.0; of_address = h.of_address; holds = back.1 }

    all_taken :
        (s : S) (net : IpNet) (kvs : List KeyValue)
        → (e.get_prefix s peers_path).0 ≡ some kvs
        → NoneFree net (used_ips kvs) (increment_ip net.ip)
        → AllTaken net (laws.contents s)
    all_taken s net kvs got a = record {
      steps = a.steps;
      outside = a.outside;
      taken = λ k. elim (Bool-cases (leb a.steps k)) [
        | inl over ↦ inl over
        | inr less ↦
            let ip = later k (increment_ip net.ip) in
            let skipped = a.skipped k (ground arith) in
            elim (not_free-cases (equal ip net.ip) (Cidr.contains net (increment_ip ip))
              (is_used (used_ips kvs) (ip_string ip)) skipped.1) [
                | inl first ↦ inr (inl first)
                | inr (inl last) ↦ inr (inr (inl last))
                | inr (inr used) ↦ inr (inr (inr (held_in_etcd s kvs (ip_string ip) got used)))
              ]
      ];
    }

    -- If an allocation reports that there is no address, then each address behind the first of the
    -- network, up to one outside of it, is the last one, is equal to the first or is the address
    -- of a peer in etcd.
    allocate_ip-exhausted :
        (fuel : ℕ) (cidr x : Bytes) (net : IpNet) (s : S)
        → parse_cidr cidr ≡ some (x, net)
        → (allocate_ip e fuel cidr s).0.0 ≡ some none_available
        → AllTaken net (laws.contents s)
    allocate_ip-exhausted fuel cidr x net s h done =
        let done' : (search_from fuel net (e.get_prefix s peers_path).0).0 ≡ some none_available =
          rw (allocate_ip-parsed e fuel cidr x net s h) at done in
        elim (Option-cases (e.get_prefix s peers_path).0) [
          | inl failed ↦ let never = Option.some_inj.0 (rw failed at done') in absurd cc
          | inr (kvs, got) ↦
              let hit = search_result-exhausted _ (rw got at done') in
              all_taken s net kvs got (
                subst (Answer net (used_ips kvs) (increment_ip net.ip)) hit
                  (search_ip-Answer fuel net (used_ips kvs) (increment_ip net.ip)))
        ]
