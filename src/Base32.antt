-- ===== src/Base32.antt =====
-- `base32.StdEncoding.WithPadding(base32.NoPadding)` of Go's standard library: `EncodeToString`
-- and `DecodeString`. The offset inside a decoding error is not modelled.
pub mod RoundTrip
use valon.Prelude.{
  ℕ, ◌+◌, ◌-◌, ◌*◌, ◌/◌, ◌%◌, Bool, ◌&&◌, ◌||◌, Option, none, some, List, [], ◌∷◌, map, Bytes, leb,
  ltb, if◌then◌else◌, ◌==◌,
}
use mathlib.Core.Option

-- the alphabet A-Z2-7
unfoldable pub digit_char : ℕ → ℕ
digit_char n = if ltb n 26 then n + 65 else n + 24

unfoldable pub char_digit : ℕ → Option ℕ
char_digit c =
    if leb b'A' c && leb c b'Z'
    then some (c - 65)
    else if leb b'2' c && leb c b'7'
    then some (c - 24)
    else none

unfoldable pub to_digits : Bytes → List ℕ
to_digits [] = []
to_digits (a ∷ []) = (a / 8) ∷ (a % 8 * 4) ∷ []
to_digits (a ∷ b ∷ []) = (a / 8) ∷ (a % 8 * 4 + b / 64) ∷ (b / 2 % 32) ∷ (b % 2 * 16) ∷ []
to_digits (a ∷ b ∷ c ∷ []) =
    (a / 8) ∷ (a % 8 * 4 + b / 64) ∷ (b / 2 % 32) ∷ (b % 2 * 16 + c / 16) ∷ (c % 16 * 2) ∷ []
to_digits (a ∷ b ∷ c ∷ d ∷ []) =
    (a / 8)
    ∷ (a % 8 * 4 + b / 64)
    ∷ (b / 2 % 32)
    ∷ (b % 2 * 16 + c / 16)
    ∷ (c % 16 * 2 + d / 128)
    ∷ (d / 4 % 32)
    ∷ (d % 4 * 8)
    ∷ []
to_digits (a ∷ b ∷ c ∷ d ∷ e ∷ rest) =
    (a / 8)
    ∷ (a % 8 * 4 + b / 64)
    ∷ (b / 2 % 32)
    ∷ (b % 2 * 16 + c / 16)
    ∷ (c % 16 * 2 + d / 128)
    ∷ (d / 4 % 32)
    ∷ (d % 4 * 8 + e / 32)
    ∷ (e % 32)
    ∷ to_digits rest

unfoldable pub encode : Bytes → Bytes
encode bytes = map digit_char (to_digits bytes)

-- a last group of 1, 3 or 6 digits yields no byte, and is no error
unfoldable pub pack : List ℕ → Bytes
pack (p ∷ q ∷ r ∷ s ∷ t ∷ u ∷ v ∷ w ∷ rest) =
    (p * 8 % 256 + q / 4)
    ∷ (q * 64 % 256 + r * 2 + s / 16)
    ∷ (s * 16 % 256 + t / 2)
    ∷ (t * 128 % 256 + u * 4 + v / 8)
    ∷ (v * 32 % 256 + w)
    ∷ pack rest
pack (p ∷ q ∷ r ∷ s ∷ t ∷ u ∷ v ∷ []) =
    (p * 8 % 256 + q / 4)
    ∷ (q * 64 % 256 + r * 2 + s / 16)
    ∷ (s * 16 % 256 + t / 2)
    ∷ (t * 128 % 256 + u * 4 + v / 8)
    ∷ []
pack (p ∷ q ∷ r ∷ s ∷ t ∷ []) =
    (p * 8 % 256 + q / 4) ∷ (q * 64 % 256 + r * 2 + s / 16) ∷ (s * 16 % 256 + t / 2) ∷ []
pack (p ∷ q ∷ r ∷ s ∷ []) = (p * 8 % 256 + q / 4) ∷ (q * 64 % 256 + r * 2 + s / 16) ∷ []
pack (p ∷ q ∷ []) = (p * 8 % 256 + q / 4) ∷ []
pack _ = []

-- `stripNewlines`
unfoldable pub strip_newlines : Bytes → Bytes
strip_newlines [] = []
strip_newlines (c ∷ s) =
    let rest = strip_newlines s in if c == 13 || c == 10 then rest else c ∷ rest

unfoldable pub read_digits : Bytes → Option (List ℕ)
read_digits [] = some []
read_digits (c ∷ s) = elim (char_digit c) [
  | none ↦ none
  | some d ↦ Option.map (◌∷◌ d) (read_digits s)
]

unfoldable pub decode : Bytes → Option Bytes
decode s = Option.map pack (read_digits (strip_newlines s))
