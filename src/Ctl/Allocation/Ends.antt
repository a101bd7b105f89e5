-- ===== src/Ctl/Allocation/Ends.antt =====
-- The loop of `AllocateIP` ends.
use valon.Prelude.{
  ℕ, ◌<◌, ◌^◌, ◌≡◌, ◌≢◌, refl, ◌∙◌, some, [], ◌∷◌, Bytes, All, length, arith, Option-cases, inl,
  inr,
}
use mathlib.Core.Option
use valon.Base32.RoundTrip.{IsByte}
use valon.Net.Cidr.{IpNet, parse_cidr}
use valon.Etcd.{Etcd}
use valon.Ctl.Address.{increment_ip}
use valon.Ctl.Address.Value.{addresses}
use valon.Ctl.Allocation.{
  peers_path, used_ips, Search, found, exhausted, out_of_fuel, no_fuel, search_result, allocate_ip,
}
use valon.Ctl.Allocation.Loop.{
  search_ip-ends, length-increment_ip, IsByte-increment_ip, addresses-increment_ip,
}
use valon.Ctl.Allocation.Found.{allocate_ip-parsed}

search_result-ends : (r : Search) → r ≢ out_of_fuel → (search_result r).0 ≢ some no_fuel
search_result-ends (found ip) h e = cc
search_result-ends exhausted h e = let same = Option.some_inj.0 e in cc
search_result-ends out_of_fuel h e = h refl

addresses-four : (ip : Bytes) → length ip ≡ 4 → addresses ip ≡ 2 ^ 32
unfolding addresses
addresses-four (a ∷ b ∷ c ∷ d ∷ []) l = refl
addresses-four (a ∷ b ∷ c ∷ d ∷ x ∷ ip) l = absurd (omega arith)
addresses-four (a ∷ b ∷ c ∷ []) l = absurd (omega arith)
addresses-four (a ∷ b ∷ []) l = absurd (omega arith)
addresses-four (a ∷ []) l = absurd (omega arith)
addresses-four [] l = absurd (omega arith)

module _ {S : Type 0} (e : Etcd S) where
  -- The search for an address in an IPv4 network whose mask has at least one bit ends within 2 ^ 32
  -- rounds: with more fuel than that, the answer is an address or one of the errors of the code.
  pub allocate_ip-ends :
      (fuel : ℕ) (cidr x : Bytes) (net : IpNet) (s : S)
      → parse_cidr cidr ≡ some (x, net)
      → length net.ip ≡ 4
      → All IsByte net.ip
      → 0 < net.ones
      → 2 ^ 32 < fuel
      → (allocate_ip e fuel cidr s).0.0 ≢ some no_fuel
  allocate_ip-ends fuel cidr x net s h four bytes pos room =
      rw (allocate_ip-parsed e fuel cidr x net s h)
        (elim (Option-cases (e.get_prefix s peers_path).0) [
          | inl failed ↦ rw failed (λ z. let same = Option.some_inj.0 z in cc)
          | inr (kvs, got) ↦ rw got (
              search_result-ends _ (
                search_ip-ends fuel net (used_ips kvs) (increment_ip net.ip) four
                  (length-increment_ip net.ip ∙ four) (IsByte-increment_ip net.ip bytes) pos
                  (omega (arith, addresses-increment_ip net.ip, addresses-four net.ip four))))
        ])
