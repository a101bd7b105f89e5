-- ===== src/Net/Cidr.antt =====
-- `net.ParseCIDR`, `IPNet.Contains` and `IP.Equal`. A network keeps the number of leading ones of
-- its mask. An IPv4 address of a network has 4 bytes, any other 16.
use valon.Prelude.{
  ℕ, ◌+◌, ◌-◌, ◌%◌, ◌^◌, ◌*◌, ◌≡◌, refl, Bool, true, false, ◌&&◌, Option, none, some, [], ◌∷◌, ◌++◌,
  Bytes, codes, length, take, drop, leb, if◌then◌else◌, ◌==◌, ◌≟◌,
}
use valon.Text.{index_byte}
use valon.Net.Number.{read_decimal}
use valon.Net.Addr.{parse_ipv4, parse_ipv6, to4, v4_prefix}

pub record IpNet : Type 0 where
  pub ip : Bytes
  pub ones : ℕ

-- `netip.ParseAddr`, of an address without a zone
unfoldable pub parse_addr_from : Bytes → Bytes → Option Bytes
parse_addr_from s [] = none
parse_addr_from s (c ∷ rest) =
    if c == b'.'
    then parse_ipv4 s
    else if c == b':'
    then parse_ipv6 s
    else if c == b'%'
    then none
    else parse_addr_from s rest

abbrev pub as_16 : Bytes → Bytes
as_16 ip = if length ip == 4 then v4_prefix ++ ip else ip

-- the bits of the mask: what lies behind the first `ones` bits becomes zero
unfoldable pub mask_bytes : ℕ → Bytes → Bytes
mask_bytes ones [] = []
mask_bytes ones (b ∷ ip) =
    (if leb 8 ones then b else b - b % 2 ^ (8 - ones)) ∷ mask_bytes (ones - 8) ip

-- The number of the mask is at most that of the bits, so the limit of `dtoi` is never met.
abbrev pub with_mask : Bytes → Option ℕ → Option (Bytes × IpNet)
with_mask ip none = none
with_mask ip (some n) =
    if leb n (8 * length ip)
    then some (as_16 ip, record { ip = mask_bytes n ip; ones = n })
    else none

unfoldable pub parse_parts : Bytes → Bytes → Option (Bytes × IpNet)
unfolding parse_addr_from read_decimal mask_bytes
parse_parts addr mask = elim (parse_addr_from addr addr) [
  | none ↦ none
  | some ip ↦ with_mask ip (if mask ≟ [] then none else read_decimal 0 mask)
]

unfoldable pub parse_cidr : Bytes → Option (Bytes × IpNet)
unfolding parse_parts
parse_cidr s = elim (index_byte s b'/') [
  | none ↦ none
  | some at ↦ parse_parts (take at s) (drop (at + 1) s)
]

abbrev pub shorter : Bytes → Bytes
shorter ip = elim (to4 ip) [ none ↦ ip | some ip4 ↦ ip4 ]

-- `networkNumberAndMask`: of an IPv4 network in the form of 16 bytes, the last 4
abbrev pub short_ones : IpNet → ℕ
short_ones n = if length n.ip == 16 && length (shorter n.ip) == 4 then n.ones - 96 else n.ones

unfoldable pub contains : IpNet → Bytes → Bool
unfolding mask_bytes
contains n ip =
    length (shorter ip) == length (shorter n.ip)
    && mask_bytes (short_ones n) (shorter n.ip) ≟ mask_bytes (short_ones n) (shorter ip)

abbrev pub equal : Bytes → Bytes → Bool
equal ip x =
    if length ip == length x
    then ip ≟ x
    else if length ip == 4 && length x == 16
    then v4_prefix ++ ip ≟ x
    else if length ip == 16 && length x == 4
    then ip ≟ v4_prefix ++ x
    else false

cidr_tests :
    (parse_cidr (codes "100.100.3.7/22")
      ≡ some
          (v4_prefix ++ 100 ∷ 100 ∷ 3 ∷ 7 ∷ [], record { ip = 100 ∷ 100 ∷ 0 ∷ 0 ∷ []; ones = 22 }))
    × (parse_cidr (codes "10.0.0.7/32")
        ≡ some (v4_prefix ++ 10 ∷ 0 ∷ 0 ∷ 7 ∷ [], record { ip = 10 ∷ 0 ∷ 0 ∷ 7 ∷ []; ones = 32 }))
    × (parse_cidr (codes "10.0.0.7/33") ≡ none)
    × (parse_cidr (codes "10.0.0.7/") ≡ none)
    × (parse_cidr (codes "10.0.0.7") ≡ none)
    × (contains (record { ip = 100 ∷ 100 ∷ 0 ∷ 0 ∷ []; ones = 22 }) (100 ∷ 100 ∷ 3 ∷ 255 ∷ [])
        ≡ true)
    × (contains
          (record { ip = 100 ∷ 100 ∷ 0 ∷ 0 ∷ []; ones = 22 })
          (v4_prefix ++ 100 ∷ 100 ∷ 4 ∷ 0 ∷ [])
        ≡ false)
unfolding parse_cidr index_byte valon.Net.Addr.ipv4_fields ◌≟◌ contains to4
cidr_tests = (refl, refl, refl, refl, refl, refl, refl)
