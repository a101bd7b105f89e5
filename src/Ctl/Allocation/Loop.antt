-- ===== src/Ctl/Allocation/Loop.antt =====
-- The loop of the allocation ends.
use valon.Prelude.{
  ℕ, zero, suc, ◌+◌, ◌-◌, ◌%◌, ◌^◌, ◌<◌, ◌≡◌, ◌≢◌, refl, ap, sym, ◌∙◌, true, false, List, [], ◌∷◌,
  Bytes, All, length, leb, if◌then◌else◌, ◌==◌, ◌≟◌, ≟_iff, ≟_ne, arith, Bool-cases, inl, inr,
}
use valon.Base32.RoundTrip.{IsByte}
use valon.Net.Addr.{to4}
use valon.Net.Cidr
use valon.Net.Cidr.{IpNet, mask_bytes}
use valon.Ctl.Address.{increment_loop, increment_ip}
use valon.Ctl.Address.Value.{
  value, addresses, increment_loop-IsByte, carried, value-below, addresses-increment_loop,
}
use valon.Ctl.Allocation.{is_free, exhausted, out_of_fuel, search_ip}

length-increment_loop : (ip : Bytes) → length (increment_loop ip).1 ≡ length ip
unfolding increment_loop
length-increment_loop [] = refl
length-increment_loop (b ∷ ip) = elim (Bool-cases (increment_loop ip).0) [
  | inl on ↦ rw (on, increment_loop) (ap suc (length-increment_loop ip))
  | inr off ↦ rw (off, increment_loop) (ap suc (length-increment_loop ip))
]

pub length-increment_ip : (ip : Bytes) → length (increment_ip ip) ≡ length ip
unfolding increment_ip
length-increment_ip ip = length-increment_loop ip

abbrev masked : ℕ → ℕ → ℕ
masked n b = if leb 8 n then b else b - b % 2 ^ (8 - n)

abbrev first : Bytes → ℕ
first [] = 0
first (b ∷ ip) = b

-- the mask of a network of at least one bit tells 255 from 0
masked-255 : (n : ℕ) → 0 < n → leb 8 n ≡ false → masked n 255 ≢ 0
masked-255 zero pos short e = absurd (omega arith)
masked-255 (suc zero) pos short e = cc
masked-255 (suc (suc zero)) pos short e = cc
masked-255 (suc (suc (suc zero))) pos short e = cc
masked-255 (suc (suc (suc (suc zero)))) pos short e = cc
masked-255 (suc (suc (suc (suc (suc zero))))) pos short e = cc
masked-255 (suc (suc (suc (suc (suc (suc zero)))))) pos short e = cc
masked-255 (suc (suc (suc (suc (suc (suc (suc zero))))))) pos short e = cc
masked-255 (suc (suc (suc (suc (suc (suc (suc (suc n)))))))) pos short e = absurd (ground arith)

first_bit : (n : ℕ) (a b : Bytes) → 0 < n → mask_bytes n (255 ∷ a) ≢ mask_bytes n (0 ∷ b)
unfolding mask_bytes
first_bit n a b pos e = elim (Bool-cases (leb 8 n)) [
  | inl long ↦ let heads = ap first e in absurd (omega (arith, rw long at heads))
  | inr short ↦ masked-255 n pos short (ap first e ∙ rw short (omega arith))
]

shorter-four : (ip : Bytes) → length ip ≡ 4 → Cidr.shorter ip ≡ ip
unfolding to4
shorter-four ip h = rw (Cidr.shorter, to4, h) refl

contains-four :
    (net : IpNet) (ip : Bytes)
    → length net.ip ≡ 4
    → length ip ≡ 4
    → Cidr.contains net ip ≡ mask_bytes net.ones net.ip ≟ mask_bytes net.ones ip
unfolding Cidr.contains
contains-four net ip hn hi =
    let near : Cidr.shorter net.ip ≡ net.ip = shorter-four net.ip hn in
    let far : Cidr.shorter ip ≡ ip = shorter-four ip hi in simp (near, far, hn, hi) refl

increment_ip-carried :
    (b : ℕ) (ip : Bytes)
    → b < 256
    → (increment_loop (b ∷ ip)).0 ≡ true
    → (b ≡ 255) × (increment_ip (b ∷ ip) ≡ 0 ∷ (increment_loop ip).1)
unfolding increment_loop increment_ip
increment_ip-carried b ip hb on = elim (Bool-cases (increment_loop ip).0) [
  | inl carry ↦
      let zeroed : ((b + 1) % 256 == 0) ≡ true = rw (carry, increment_loop) at on in
      let e : (b + 1) % 256 ≡ 0 = ground arith in
      (
        omega arith,
        rw (increment_ip, increment_loop, carry) (ap (λ x. x ∷ (increment_loop ip).1) e),
      )
  | inr no_carry ↦ let never : false ≡ true = rw (no_carry, increment_loop) at on in absurd cc
]

-- Behind the last address of all comes one that is not in the network.
contains-wrapped :
    (net : IpNet) (b : ℕ) (ip : Bytes)
    → length net.ip ≡ 4
    → length (b ∷ ip) ≡ 4
    → b < 256
    → 0 < net.ones
    → (increment_loop (b ∷ ip)).0 ≡ true
    → Cidr.contains net (b ∷ ip) ≡ true
    → Cidr.contains net (increment_ip (b ∷ ip)) ≡ false
contains-wrapped net b ip hn hl hb pos on within =
    let (top, next) = increment_ip-carried b ip hb on in
    let here = (≟_iff _ _).0 (sym (contains-four net (b ∷ ip) hn hl) ∙ within) in
    contains-four net (increment_ip (b ∷ ip)) hn (length-increment_ip (b ∷ ip) ∙ hl)
    ∙ rw next (
        ≟_ne _ _ (λ e.
          first_bit net.ones ip (increment_loop ip).1 pos
            (ap (λ x. mask_bytes net.ones (x ∷ ip)) (sym top) ∙ sym here ∙ e)))

increment_loop-value :
    (ip : Bytes)
    → All IsByte ip
    → (increment_loop ip).0 ≡ false
    → value (increment_ip ip) ≡ value ip + 1
unfolding increment_ip
increment_loop-value ip h stops =
    let sum = carried ip h in
    let sum0 : value (increment_loop ip).1 + 0 ≡ value ip + 1 = rw stops at sum in omega arith

pub IsByte-increment_ip : (ip : Bytes) → All IsByte ip → All IsByte (increment_ip ip)
unfolding increment_ip
IsByte-increment_ip ip h = increment_loop-IsByte ip h

pub addresses-increment_ip : (ip : Bytes) → addresses (increment_ip ip) ≡ addresses ip
unfolding increment_ip
addresses-increment_ip ip = addresses-increment_loop ip

search_ip-outside :
    (fuel : ℕ) (net : IpNet) (used : List Bytes) (ip : Bytes)
    → 0 < fuel
    → Cidr.contains net ip ≡ false
    → search_ip fuel net used ip ≡ exhausted
unfolding search_ip
search_ip-outside zero net used ip more h = absurd (omega arith)
search_ip-outside (suc fuel) net used ip more h = rw (search_ip, h) refl

-- With more rounds than there are addresses left, the search comes to an end.
pub search_ip-ends :
    (fuel : ℕ) (net : IpNet) (used : List Bytes) (ip : Bytes)
    → length net.ip ≡ 4
    → length ip ≡ 4
    → All IsByte ip
    → 0 < net.ones
    → addresses ip < value ip + fuel
    → search_ip fuel net used ip ≢ out_of_fuel
unfolding search_ip
search_ip-ends zero net used ip hn hi bytes pos room = absurd (omega (arith, value-below ip bytes))
search_ip-ends (suc fuel) net used [] hn hi bytes pos room = absurd (omega arith)
search_ip-ends (suc fuel) net used (b ∷ ip) hn hi bytes pos room =
    elim (Bool-cases (Cidr.contains net (b ∷ ip))) [
      | inr outside ↦ rw (search_ip, outside) (λ e. cc)
      | inl within ↦ elim (Bool-cases (is_free net used (b ∷ ip))) [
        | inl free ↦ rw (search_ip, within, free) (λ e. cc)
        | inr taken ↦ elim (Bool-cases (increment_loop (b ∷ ip)).0) [
          | inr stops ↦
              rw (search_ip, within, taken)
                (search_ip-ends fuel net used (increment_ip (b ∷ ip)) hn
                  (length-increment_ip (b ∷ ip) ∙ hi) (IsByte-increment_ip (b ∷ ip) bytes) pos
                  (omega (
                    arith,
                    addresses-increment_ip (b ∷ ip),
                    increment_loop-value (b ∷ ip) bytes stops,
                  )))
          | inl wraps ↦
              rw
                (
                  search_ip,
                  within,
                  taken,
                  search_ip-outside fuel net used (increment_ip (b ∷ ip))
                      (omega (arith, value-below (b ∷ ip) bytes))
                      (contains-wrapped net b ip hn hi bytes.0 pos wraps within),
                )
                (λ e. cc)
        ]
      ]
    ]
