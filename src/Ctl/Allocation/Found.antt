-- ===== src/Ctl/Allocation/Found.antt =====
-- What an allocation gives, in terms of what etcd holds.
use valon.Prelude.{
  ◌≟◌, Bool-cases, ≟_ne, ℕ, ◌≡◌, ◌≢◌, refl, ap, sym, ◌∙◌, subst, Bool, true, false, not, ◌&&◌, ◌||◌,
  Option, none, some, List, Bytes, codes, arith, Option-cases, inl, inr,
}
use valon.Text.{has_prefix, has_suffix}
use valon.Net.Cidr
use valon.Net.Cidr.{IpNet, parse_cidr, equal}
use valon.Net.IpText.{ip_string}
use valon.Etcd.{Etcd, IsEtcd, KeyValue, Contents, find}
use valon.Ctl.Address.{increment_ip}
use valon.Ctl.Allocation.{
  peers_path, used_ips, is_used, Search, found, exhausted, out_of_fuel, search_from, search_result,
  allocate_ip,
}
use valon.Ctl.Allocation.Used.{is_used-find}
use valon.Ctl.Allocation.Answer.{later, Answer, FirstFree, search_ip-Answer}

search_result-found : (r : Search) (text : Bytes) → search_result r ≡ (none, text) → r ≡ found text
search_result-found (found ip) text h = ap found (ap (λ x. x.1) h)
search_result-found exhausted text h = let e = ap (λ x. x.0) h in absurd cc
search_result-found out_of_fuel text h = let e = ap (λ x. x.0) h in absurd cc

abbrev is_text : Option Bytes → Bytes → Bool
is_text none text = false
is_text (some v) text = v ≟ text

-- the key is that of a peer's address and holds the text
abbrev pub holds_ip : Contents → Bytes → Bytes → Bool
holds_ip m text j = has_prefix j peers_path && (has_suffix j (codes "/wg_ip") && is_text (m j) text)

holds_ip-false :
    (m : Contents) (text j : Bytes)
    → (has_prefix j peers_path ≡ true → has_suffix j (codes "/wg_ip") ≡ true → m j ≢ some text)
    → holds_ip m text j ≡ false
holds_ip-false m text j h = elim (Bool-cases (has_prefix j peers_path)) [
  | inr outside ↦ rw outside refl
  | inl inside ↦ elim (Bool-cases (has_suffix j (codes "/wg_ip"))) [
    | inr other ↦ rw (inside, other) refl
    | inl suffix ↦ elim (Option-cases (m j)) [
      | inl nothing ↦ rw (inside, suffix, nothing) refl
      | inr (v, held) ↦
          rw (inside, suffix, held) (≟_ne v text (λ e. h inside suffix (held ∙ ap some e)))
    ]
  ]
]

-- The address is in the network, behind its first and before its last, and no key of a peer's
-- address in etcd holds its text.
pub record IsAvailable (net : IpNet) (m : Contents) (text : Bytes) : Type 0 where
  pub ip : Bytes
  pub spelled : text ≡ ip_string ip
  pub inside : Cidr.contains net ip ≡ true
  pub not_first : equal ip net.ip ≡ false
  pub not_last : Cidr.contains net (increment_ip ip) ≡ true
  pub unused : (j : Bytes) → holds_ip m text j ≡ false

is_free-cases :
    (first inside used : Bool)
    → (not (first || not inside) && not used) ≡ true
    → (first ≡ false) × (inside ≡ true) × (used ≡ false)
is_free-cases first inside used h = ground arith

module _ {S : Type 0} (e : Etcd S) where
  pub allocate_ip-parsed :
      (fuel : ℕ) (cidr x : Bytes) (net : IpNet) (s : S)
      → parse_cidr cidr ≡ some (x, net)
      → (allocate_ip e fuel cidr s).0 ≡ search_from fuel net (e.get_prefix s peers_path).0
  unfolding allocate_ip
  allocate_ip-parsed fuel cidr x net s h = rw (allocate_ip, h) refl

  module _ (laws : IsEtcd e) where
    available :
        (s : S) (net : IpNet) (kvs : List KeyValue) (text : Bytes)
        → (e.get_prefix s peers_path).0 ≡ some kvs
        → FirstFree net (used_ips kvs) (increment_ip net.ip) text
        → IsAvailable net (laws.contents s) text
    available s net kvs text got a =
        let ip = later a.steps (increment_ip net.ip) in
        let (off, more, free) =
          is_free-cases (equal ip net.ip) (Cidr.contains net (increment_ip ip))
            (is_used (used_ips kvs) (ip_string ip)) a.free in
        record {
          ip = ip;
          spelled = a.spelled;
          inside = a.inside;
          not_first = off;
          not_last = more;
          unused = λ j. holds_ip-false (laws.contents s) text j (λ inside suffix holds.
              let entry : find kvs j ≡ some text =
                laws.get_prefix_returns s peers_path kvs got j ∙ rw inside holds in
              let hit = is_used-find kvs j text suffix entry in
              let miss : is_used (used_ips kvs) text ≡ false = rw a.spelled free in absurd cc);
        }

    -- An address that is allocated lies in the network, is neither its first address nor its last,
    -- and is not the address of any peer in etcd.
    pub allocate_ip-IsAvailable :
        (fuel : ℕ) (cidr x : Bytes) (net : IpNet) (s : S) (text : Bytes)
        → parse_cidr cidr ≡ some (x, net)
        → (allocate_ip e fuel cidr s).0 ≡ (none, text)
        → IsAvailable net (laws.contents s) text
    allocate_ip-IsAvailable fuel cidr x net s text h done =
        let done' = sym (allocate_ip-parsed fuel cidr x net s h) ∙ done in
        elim (Option-cases (e.get_prefix s peers_path).0) [
          | inl failed ↦ let never = ap (λ r. r.0) (rw failed at done') in absurd cc
          | inr (kvs, got) ↦
              let hit = search_result-found _ text (rw got at done') in
              available s net kvs text got (
                subst (Answer net (used_ips kvs) (increment_ip net.ip)) hit
                  (search_ip-Answer fuel net (used_ips kvs) (increment_ip net.ip)))
        ]
