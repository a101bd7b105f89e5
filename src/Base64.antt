-- ===== src/Base64.antt =====
-- `base64.StdEncoding` of Go's standard library: `EncodeToString` and `DecodeString`, with
-- padding, line breaks skipped, trailing bits ignored. The offset inside a decoding error is not
-- modelled.
pub mod RoundTrip
pub mod Plain
use valon.Prelude.{
  ℕ, ◌+◌, ◌-◌, ◌*◌, ◌/◌, ◌%◌, ◌&&◌, ◌||◌, Option, none, some, [], ◌∷◌, Bytes, leb, ltb,
  if◌then◌else◌, ◌==◌, List, ◌>>=◌,
}

-- the alphabet A-Z a-z 0-9 + /
unfoldable pub digit_char : ℕ → ℕ
digit_char n =
    if ltb n 26
    then n + 65
    else if ltb n 52
    then n + 71
    else if ltb n 62
    then n - 4
    else if n == 62
    then b'+'
    else b'/'

unfoldable pub char_digit : ℕ → Option ℕ
char_digit c =
    if leb b'A' c && leb c b'Z'
    then some (c - 65)
    else if leb b'a' c && leb c b'z'
    then some (c - 71)
    else if leb b'0' c && leb c b'9'
    then some (c + 4)
    else if c == b'+'
    then some 62
    else if c == b'/'
    then some 63
    else none

unfoldable pub encode : Bytes → Bytes
unfolding digit_char
encode [] = []
encode (a ∷ []) = digit_char (a / 4) ∷ digit_char (a % 4 * 16) ∷ b'=' ∷ b'=' ∷ []
encode (a ∷ b ∷ []) =
    digit_char (a / 4) ∷ digit_char (a % 4 * 16 + b / 16) ∷ digit_char (b % 16 * 4) ∷ b'=' ∷ []
encode (a ∷ b ∷ c ∷ rest) =
    digit_char (a / 4)
    ∷ digit_char (a % 4 * 16 + b / 16)
    ∷ digit_char (b % 16 * 4 + c / 64)
    ∷ digit_char (c % 64)
    ∷ encode rest

unfoldable pub strip_newlines : Bytes → Bytes
strip_newlines [] = []
strip_newlines (c ∷ s) =
    let rest = strip_newlines s in if c == 13 || c == 10 then rest else c ∷ rest

-- `xx==` and `xxx=`, which only the end of the input may follow
unfoldable pub padded : ℕ → ℕ → ℕ → ℕ → Option Bytes
unfolding char_digit
padded a b c d =
    if d == b'='
    then (if c == b'='
        then (do p ← char_digit a; q ← char_digit b; some ((p * 4 + q / 16) ∷ []))
        else (do
          p ← char_digit a
          q ← char_digit b
          r ← char_digit c
          some ((p * 4 + q / 16) ∷ (q % 16 * 16 + r / 4) ∷ [])))
    else none

-- `decodeQuantum`: four digits are three bytes
unfoldable pub quantum : ℕ → ℕ → ℕ → ℕ → Bytes → Option Bytes
unfolding char_digit
quantum a b c d rest = do
  p ← char_digit a
  q ← char_digit b
  r ← char_digit c
  s ← char_digit d
  some ((p * 4 + q / 16) ∷ (q % 16 * 16 + r / 4) ∷ (r % 4 * 64 + s) ∷ rest)

unfoldable pub decode_groups : Bytes → Option Bytes
unfolding padded quantum
decode_groups [] = some []
decode_groups (a ∷ b ∷ c ∷ d ∷ []) = if d == b'=' then padded a b c d else quantum a b c d []
decode_groups (a ∷ b ∷ c ∷ d ∷ rest) = do bytes ← decode_groups rest; quantum a b c d bytes
decode_groups _ = none

unfoldable pub decode : Bytes → Option Bytes
unfolding strip_newlines decode_groups
decode s = decode_groups (strip_newlines s)
