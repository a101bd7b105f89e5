-- ===== src/Net/HostRoute.antt =====
-- `net.ParseCIDR` of an address with `/32` behind it, which `AddPeer` of
-- valonctl/pkg/client/wireguard.go builds, and `net.ParseIP` of the address.
use valon.Prelude.{
  ℕ, suc, ◌+◌, ◌-◌, ◌*◌, ◌≡◌, ◌⊎◌, refl, ap, ◌∙◌, Bool, true, false, Option, none, some, [], ◌∷◌,
  ◌++◌, Bytes, codes, length, take, drop, if◌then◌else◌, ◌==◌, ◌≟◌, inl, inr, Bool-cases,
  Option-cases, arith, take-append_length,
}
use valon.Text.{index_byte}
use valon.Net.Number.{read_decimal}
use valon.Net.Addr.{parse_from, parse_ip}
use valon.Net.Cidr.{IpNet, with_mask, parse_addr_from, parse_parts, parse_cidr}

abbrev pub IsSome : Option Bytes → Type 0
IsSome o = (x : Bytes) × (o ≡ some x)

parse_from-IsSome :
    (s rest a : Bytes) → parse_addr_from s rest ≡ some a → IsSome (parse_from s rest)
unfolding parse_addr_from parse_from
parse_from-IsSome s [] a h = absurd cc
parse_from-IsSome s (c ∷ rest) a h = elim (Bool-cases (c == b'.')) [
  | inl dot ↦ let v4 = rw dot at h in rw (dot, v4) (_, refl)
  | inr not_dot ↦ elim (Bool-cases (c == b':')) [
    | inl colon ↦ rw (not_dot, colon) (a, rw (not_dot, colon) at h)
    | inr not_colon ↦ elim (Bool-cases (c == b'%')) [
      | inl zone ↦ let never = rw (not_dot, not_colon, zone) at h in absurd (cc never)
      | inr other ↦
          rw (not_dot, not_colon, other)
            (parse_from-IsSome s rest a (rw (not_dot, not_colon, other) at h))
    ]
  ]
]

abbrev bits : Bytes
bits = codes "/32"

read_decimal-slash : (n : ℕ) (s : Bytes) → read_decimal n (s ++ bits) ≡ none
unfolding read_decimal
read_decimal-slash n [] = refl
read_decimal-slash n (c ∷ s) = ground (arith, read_decimal-slash (n * 10 + (c - b'0')) s)

-- The first slash is the one in front of the bits, or what follows it has another.
index_byte-cases :
    (s : Bytes)
    → (index_byte (s ++ bits) b'/' ≡ some (length s))
      ⊎ ((at : ℕ) × (rest : Bytes) × (index_byte (s ++ bits) b'/' ≡ some at)
          × (drop (at + 1) (s ++ bits) ≡ rest ++ bits))
unfolding index_byte
index_byte-cases [] = inl refl
index_byte-cases (c ∷ s) = elim (Bool-cases (c == b'/')) [
  | inl here ↦ inr (0, s, rw here refl, refl)
  | inr other ↦ elim (index_byte-cases s) [
    | inl found ↦ inl (rw (other, found) refl)
    | inr (at, rest, found, behind) ↦
        inr (suc at, rest, rw (other, found) refl, later at rest behind)
  ]
]
  where
    later :
        (at : ℕ) (rest : Bytes)
        → drop (at + 1) (s ++ bits) ≡ rest ++ bits
        → drop (suc at + 1) (c ∷ (s ++ bits)) ≡ rest ++ bits
    later at rest h =
        let next : suc at + 1 ≡ suc (at + 1) = omega arith in
        ap (λ n. drop n (c ∷ (s ++ bits))) next ∙ h

address-parse_parts :
    (s mask : Bytes) (r : Bytes × IpNet) → parse_parts s mask ≡ some r → IsSome (parse_ip s)
unfolding parse_parts parse_ip
address-parse_parts s mask r h = elim (Option-cases (parse_addr_from s s)) [
  | inl bad ↦ let never = rw (parse_parts, bad) at h in absurd (cc never)
  | inr (a, good) ↦ parse_from-IsSome s s a good
]

no_bits : (s rest : Bytes) → parse_parts s (rest ++ bits) ≡ none
unfolding parse_parts
no_bits s rest = elim (Option-cases (parse_addr_from s s)) [
  | inl bad ↦ rw (parse_parts, bad) refl
  | inr (a, good) ↦
      rw (parse_parts, good, read_decimal-slash 0 rest) (nothing a (rest ++ bits ≟ []))
]
  where
    nothing : (a : Bytes) (b : Bool) → with_mask a (if b then none else none) ≡ none
    nothing a true = refl
    nothing a false = refl

-- A text that makes a network with `/32` behind it is an IP.
pub parse_cidr-parse_ip :
    (s : Bytes) (r : Bytes × IpNet) → parse_cidr (s ++ bits) ≡ some r → IsSome (parse_ip s)
unfolding parse_cidr
parse_cidr-parse_ip s r h = elim (index_byte-cases s) [
  | inl found ↦
      address-parse_parts s (drop (length s + 1) (s ++ bits)) r
        (rw (take-append_length s bits) at (rw (parse_cidr, found) at h))
  | inr (at, rest, found, behind) ↦
      let never =
        rw (no_bits (take at (s ++ bits)) rest) at (rw (parse_cidr, found, behind) at h) in
      absurd (cc never)
]
