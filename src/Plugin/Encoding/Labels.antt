-- ===== src/Plugin/Encoding/Labels.antt =====
-- The bytes of a label, and how they pass through the changes of case.
use valon.Prelude.{
  ℕ, ◌-◌, ◌<◌, ◌≡◌, refl, ap, Option, none, some, List, [], ◌∷◌, map, Bytes, arith, All, ◌==◌, leb,
  Bool, ◌&&◌, ◌||◌, true, false, length, ◌∙◌, length-map,
}
use valon.Text.{all_bytes, Unicode, is_ascii, upper_byte, lower_byte, to_upper, to_lower}
use mathlib.Core.Option
use valon.Plugin.Encoding.{dns_label_to_pubkey}
use valon.Base32
use valon.Base32.{digit_char, to_digits}
use valon.Base32.RoundTrip.{IsByte, IsDigit, to_digits-IsDigit}

-- The bytes of a lower-case label, a-z and 2-7.
abbrev pub IsLabelByte : ℕ → Type 0
IsLabelByte c = (leb b'a' c && leb c b'z' || leb b'2' c && leb c b'7') ≡ true

digit_char-lt : (d : ℕ) → d < 32 → digit_char d < 128
unfolding digit_char
digit_char-lt d h = ground arith

is_ascii-encoded : (ds : List ℕ) → All IsDigit ds → is_ascii (map digit_char ds) ≡ true
unfolding is_ascii
is_ascii-encoded [] h = refl
is_ascii-encoded (d ∷ ds) h = ground (arith, digit_char-lt d h.0, is_ascii-encoded ds h.1)

lower_byte-digit_char :
    (d : ℕ)
    → d < 32
    → (upper_byte (lower_byte (digit_char d)) ≡ digit_char d)
      × IsLabelByte (lower_byte (digit_char d))
unfolding digit_char lower_byte upper_byte
lower_byte-digit_char d h = ground arith

pub IsLabelByte-lt : (c : ℕ) → IsLabelByte c → c < 128
IsLabelByte-lt c h = ground arith

pub is_ascii-labels : (s : Bytes) → All IsLabelByte s → is_ascii s ≡ true
unfolding is_ascii
is_ascii-labels [] h = refl
is_ascii-labels (c ∷ s) h = ground (arith, IsLabelByte-lt c h.0, is_ascii-labels s h.1)

All-lower_encoded :
    (ds : List ℕ) → All IsDigit ds → All IsLabelByte (map lower_byte (map digit_char ds))
All-lower_encoded [] h = tt
All-lower_encoded (d ∷ ds) h = ((lower_byte-digit_char d h.0).1, All-lower_encoded ds h.1)

upper-lower_encoded :
    (ds : List ℕ)
    → All IsDigit ds
    → map upper_byte (map lower_byte (map digit_char ds)) ≡ map digit_char ds
upper-lower_encoded [] h = refl
upper-lower_encoded (d ∷ ds) h = cc ((lower_byte-digit_char d h.0).0, upper-lower_encoded ds h.1)

module _ (u : Unicode) (bytes : Bytes) (are_bytes : All IsByte bytes) where
  pub All-label : All IsLabelByte (to_lower u (Base32.encode bytes))
  unfolding to_lower Base32.encode
  All-label =
      let ds = to_digits-IsDigit bytes are_bytes in
      rw (is_ascii-encoded (to_digits bytes) ds) (All-lower_encoded (to_digits bytes) ds)

  pub upper-label : to_upper u (to_lower u (Base32.encode bytes)) ≡ Base32.encode bytes
  unfolding to_lower to_upper Base32.encode
  upper-label =
      let ds = to_digits-IsDigit bytes are_bytes in
      rw (is_ascii-encoded (to_digits bytes) ds) (
        rw (is_ascii-labels _ (All-lower_encoded (to_digits bytes) ds))
          (upper-lower_encoded (to_digits bytes) ds))

  pub length-label : length (to_lower u (Base32.encode bytes)) ≡ length (to_digits bytes)
  unfolding to_lower Base32.encode
  length-label =
      rw (is_ascii-encoded (to_digits bytes) (to_digits-IsDigit bytes are_bytes))
        (length-map lower_byte _ ∙ length-map digit_char (to_digits bytes))

-- The bytes that the decoder of labels takes or skips: letters, 2-7 and line breaks.
abbrev pub is_label_letter : ℕ → Bool
is_label_letter c =
    leb b'a' c && leb c b'z'
    || leb b'A' c && leb c b'Z'
    || leb b'2' c && leb c b'7'
    || c == 13
    || c == 10

abbrev pub is_read : Option Bytes → Bool
is_read none = false
is_read (some ds) = true

is_read-map : (d : ℕ) (o : Option Bytes) → is_read (Option.map (◌∷◌ d) o) ≡ is_read o
is_read-map d none = refl
is_read-map d (some ds) = refl

read_digits-cons :
    (c : ℕ) (s : Bytes)
    → is_read (Base32.read_digits (Base32.strip_newlines (upper_byte c ∷ s)))
      ≡ (is_label_letter c && is_read (Base32.read_digits (Base32.strip_newlines s)))
unfolding Base32.read_digits Base32.strip_newlines upper_byte Base32.char_digit
read_digits-cons c s =
    ground (arith, is_read-map (c - 24) (Base32.read_digits (Base32.strip_newlines s)))

read_digits-letters :
    (s : Bytes)
    → is_read (Base32.read_digits (Base32.strip_newlines (map upper_byte s)))
      ≡ all_bytes is_label_letter s
unfolding all_bytes Base32.read_digits Base32.strip_newlines
read_digits-letters [] = refl
read_digits-letters (c ∷ s) =
    read_digits-cons c (map upper_byte s) ∙ ap (λ b. is_label_letter c && b) (read_digits-letters s)

-- An ASCII text decodes as the label of a key exactly if each of its bytes is a letter, a digit from
-- 2 to 7 or a line break.
pub is_read-dns_label_to_pubkey :
    (u : Unicode) (s : Bytes)
    → is_ascii s ≡ true
    → is_read (dns_label_to_pubkey u s) ≡ all_bytes is_label_letter s
unfolding dns_label_to_pubkey to_upper Base32.decode
is_read-dns_label_to_pubkey u s h = rw h (ground (arith, read_digits-letters s))
