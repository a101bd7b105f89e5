-- ===== src/Net/Addr.antt =====
-- `net.ParseIP`, `IP.To4` and the text of an IPv4 address. An address is the list of its 16 bytes;
-- `none` is the nil IP. An address with a zone is no IP for `ParseIP`.
use valon.Prelude.{
  ℕ, zero, suc, ◌+◌, ◌-◌, ◌*◌, ◌/◌, ◌%◌, ◌≡◌, refl, Bool, false, ◌&&◌, ◌||◌, Option, none, some, [],
  ◌∷◌, ◌++◌, ◌>>=◌, Bytes, codes, length, take, drop, ltb, leb, if◌then◌else◌, ◌==◌, ◌≟◌,
}
use valon.Text.{has_byte, has_prefix}
use valon.Net.Number.{is_digit}

-- `parseIPv4Fields`: the octets read so far, the value and the number of digits of the next
unfoldable pub ipv4_fields : Bytes → ℕ → ℕ → Bytes → Option Bytes
ipv4_fields octets value digits [] =
    if length octets == 3 then some (octets ++ value ∷ []) else none
ipv4_fields octets value digits (c ∷ s) =
    let digit = ipv4_fields octets (value * 10 + (c - b'0')) (digits + 1) s in
    let dot = ipv4_fields (octets ++ value ∷ []) 0 0 s in
    if is_digit c
    then (if (digits == 1 && value == 0) || ltb 255 (value * 10 + (c - b'0')) then none else digit)
    else if c == b'.'
    then (if digits == 0 || s ≟ [] || length octets == 3 then none else dot)
    else none

abbrev pub parse_ipv4 : Bytes → Option Bytes
parse_ipv4 = ipv4_fields [] 0 0

unfoldable pub hex_digit : ℕ → Option ℕ
hex_digit c =
    if is_digit c
    then some (c - b'0')
    else if leb b'a' c && leb c b'f'
    then some (c - b'a' + 10)
    else if leb b'A' c && leb c b'F'
    then some (c - b'A' + 10)
    else none

-- the value, the number of digits and what follows them; `none` for more than four digits
unfoldable pub hex_group : ℕ → ℕ → Bytes → Option (ℕ × ℕ × Bytes)
unfolding hex_digit
hex_group acc digits [] = some (acc, digits, [])
hex_group acc digits (c ∷ s) = elim (hex_digit c) [
  | none ↦ some (acc, digits, c ∷ s)
  | some d ↦
      let rest = hex_group (acc * 16 + d) (digits + 1) s in if ltb 3 digits then none else rest
]

abbrev zeros : ℕ → Bytes
zeros zero = []
zeros (suc n) = 0 ∷ zeros n

-- the end of the loop: the whole text must have been used, and an ellipsis stands for zeros
unfoldable pub ipv6_finish : Bytes → Option ℕ → Bytes → Option Bytes
ipv6_finish ip none rest = if rest ≟ [] && length ip == 16 then some ip else none
ipv6_finish ip (some at) rest =
    if rest ≟ [] && ltb (length ip) 16
    then some (take at ip ++ (zeros (16 - length ip) ++ drop at ip))
    else none

abbrev starts_with : ℕ → Bytes → Bool
starts_with b [] = false
starts_with b (c ∷ s) = c == b

-- after a colon: perhaps the ellipsis, and then the next round
after_colon : (Bytes → Option ℕ → Bytes → Option Bytes) → Bytes → Option ℕ → Bytes → Option Bytes
unfolding ipv6_finish
after_colon next ip ellipsis [] = none
after_colon next ip ellipsis (c ∷ s) =
    if c == b':'
    then elim ellipsis [
      | some at ↦ none
      | none ↦ if s ≟ [] then ipv6_finish ip (some (length ip)) [] else next ip (some (length ip)) s
    ]
    else next ip ellipsis (c ∷ s)

-- what follows a group of hexadecimal digits
after_group :
    (Bytes → Option ℕ → Bytes → Option Bytes)
    → Bytes
    → Option ℕ
    → Bytes
    → ℕ × ℕ × Bytes
    → Option Bytes
unfolding after_colon ipv6_finish ipv4_fields
after_group next ip ellipsis s (acc, digits, rest) =
    let bytes = ip ++ (acc / 256) ∷ (acc % 256) ∷ [] in
    if digits == 0
    then none
    else if starts_with b'.' rest
    then (elim ellipsis [
      | none ↦
          if length ip == 12 then (do v ← parse_ipv4 s; ipv6_finish (ip ++ v) none []) else none
      | some at ↦
          if ltb 12 (length ip)
          then none
          else (do v ← parse_ipv4 s; ipv6_finish (ip ++ v) (some at) [])
    ])
    else elim rest [
      | [] ↦ ipv6_finish bytes ellipsis []
      | c ∷ more ↦ if c == b':' then after_colon next bytes ellipsis more else none
    ]

-- at most eight rounds, of two bytes each; the bytes so far, the place of the ellipsis, the text
unfoldable pub ipv6_groups : ℕ → Bytes → Option ℕ → Bytes → Option Bytes
unfolding after_group hex_group
ipv6_groups zero ip ellipsis s = ipv6_finish ip ellipsis s
ipv6_groups (suc rounds) ip ellipsis s = elim (hex_group 0 0 s) [
  | none ↦ none
  | some group ↦ after_group (ipv6_groups rounds) ip ellipsis s group
]

unfoldable pub parse_ipv6 : Bytes → Option Bytes
unfolding ipv6_groups
parse_ipv6 s =
    if has_byte s b'%'
    then none
    else if has_prefix s (codes "::")
    then (if length s == 2 then some (zeros 16) else ipv6_groups 8 [] (some 0) (drop 2 s))
    else ipv6_groups 8 [] none s

abbrev pub v4_prefix : Bytes
v4_prefix = 0 ∷ 0 ∷ 0 ∷ 0 ∷ 0 ∷ 0 ∷ 0 ∷ 0 ∷ 0 ∷ 0 ∷ 255 ∷ 255 ∷ []

abbrev pub as_16 : Option Bytes → Option Bytes
as_16 none = none
as_16 (some octets) = some (v4_prefix ++ octets)

-- the first of `.`, `:` and `%` decides
unfoldable pub parse_from : Bytes → Bytes → Option Bytes
unfolding ipv4_fields parse_ipv6
parse_from s [] = none
parse_from s (c ∷ rest) =
    if c == b'.'
    then as_16 (parse_ipv4 s)
    else if c == b':'
    then parse_ipv6 s
    else if c == b'%'
    then none
    else parse_from s rest

unfoldable pub parse_ip : Bytes → Option Bytes
unfolding parse_from
parse_ip s = parse_from s s

-- `To4`; `none` is nil
unfoldable pub to4 : Bytes → Option Bytes
to4 ip =
    if length ip == 4
    then some ip
    else if length ip == 16 && take 12 ip ≟ v4_prefix
    then some (drop 12 ip)
    else none

parse_ip_tests :
    (parse_ip (codes "100.64.0.1") ≡ some (v4_prefix ++ 100 ∷ 64 ∷ 0 ∷ 1 ∷ []))
    × (parse_ip (codes "1.2.3") ≡ none)
    × (parse_ip (codes "1.2.3.04") ≡ none)
    × (parse_ip (codes "1.2.3.256") ≡ none)
    × (parse_ip (codes "1.2.3.4.") ≡ none)
    × (parse_ip (codes "::ffff:1.2.3.4") ≡ some (v4_prefix ++ 1 ∷ 2 ∷ 3 ∷ 4 ∷ []))
    × (parse_ip (codes "fe80::1")
        ≡ some (0xfe ∷ 0x80 ∷ 0 ∷ 0 ∷ 0 ∷ 0 ∷ 0 ∷ 0 ∷ 0 ∷ 0 ∷ 0 ∷ 0 ∷ 0 ∷ 0 ∷ 0 ∷ 1 ∷ []))
    × (parse_ip (codes "::") ≡ some (zeros 16))
    × (parse_ip (codes "1::2::3") ≡ none)
    × (parse_ip (codes "1:2:3:4:5:6:7:8:9") ≡ none)
unfolding parse_ip has_byte has_prefix ◌≟◌
parse_ip_tests = (refl, refl, refl, refl, refl, refl, refl, refl, refl, refl)
