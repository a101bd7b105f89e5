-- ===== src/Net/Number.antt =====
-- Decimal numbers: `strconv.Atoi` where the result goes into a uint16, and the digits that
-- `%d` prints.
use valon.Prelude.{
  ℕ, ◌+◌, ◌-◌, ◌*◌, ◌%◌, ◌^◌, ◌≡◌, refl, Bool, ◌&&◌, Option, none, some, [], ◌∷◌, Bytes, codes, ltb,
  leb, if◌then◌else◌, ◌==◌,
}

abbrev pub is_digit : ℕ → Bool
is_digit c = leb b'0' c && leb c b'9'

unfoldable pub read_decimal : ℕ → Bytes → Option ℕ
read_decimal n [] = some n
read_decimal n (c ∷ s) =
    let rest = read_decimal (n * 10 + (c - b'0')) s in if is_digit c then rest else none

abbrev decimal : Bytes → Option ℕ
decimal [] = none
decimal (c ∷ s) = read_decimal 0 (c ∷ s)

-- Out of range, `Atoi` returns the largest int64 or the least, beside an error that is dropped.
positive : Option ℕ → ℕ
positive none = 0
positive (some n) = if ltb (2 ^ 63 - 1) n then 65535 else n % 65536

negative : Option ℕ → ℕ
negative none = 0
negative (some n) = if ltb (2 ^ 63) n then 0 else (65536 - n % 65536) % 65536

-- `port, _ := strconv.Atoi(s)` and then `uint16(port)`
unfoldable pub atoi_uint16 : Bytes → ℕ
unfolding read_decimal positive negative
atoi_uint16 [] = 0
atoi_uint16 (c ∷ s) =
    if c == b'+'
    then positive (decimal s)
    else if c == b'-'
    then negative (decimal s)
    else positive (decimal (c ∷ s))

atoi_uint16_tests :
    (atoi_uint16 (codes "51820") ≡ 51820)
    × (atoi_uint16 (codes "70000") ≡ 4464)
    × (atoi_uint16 (codes "-1") ≡ 65535)
    × (atoi_uint16 (codes "http") ≡ 0)
unfolding atoi_uint16
atoi_uint16_tests = (refl, refl, refl, refl)
