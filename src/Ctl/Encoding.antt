-- ===== src/Ctl/Encoding.antt =====
-- valonctl/pkg/encoding/encoding.go. An error is a constructor; the decoder's own message inside
-- it is not modelled.
pub mod Normal
use valon.Prelude.{
  ℕ, Bool, true, false, not, ◌&&◌, Option, none, some, [], ◌∷◌, Bytes, codes, length, if◌then◌else◌,
  ◌==◌, ◌≟◌, Result, ok, err,
}
use valon.Text.{Unicode, to_upper, to_lower, contains_any}
use valon.Base32
use valon.Base64

pub data EncodingError : Type 0 where
  empty_label invalid_base32_label empty_pubkey invalid_base64_pubkey empty_input : EncodingError
  invalid_base64_format unknown_format : EncodingError
  invalid_pubkey_length : ℕ → EncodingError

abbrev pub Outcome : Type 0
Outcome = Result EncodingError Bytes

unfoldable pub label_to_pubkey : Unicode → Bytes → Outcome
label_to_pubkey u label =
    if label ≟ [] then err empty_label else elim (Base32.decode (to_upper u label)) [
      | none ↦ err invalid_base32_label
      | some decoded ↦ ok (Base64.encode decoded)
    ]

unfoldable pub pubkey_to_label : Unicode → Bytes → Outcome
pubkey_to_label u pubkey = if pubkey ≟ [] then err empty_pubkey else elim (Base64.decode pubkey) [
  | none ↦ err invalid_base64_pubkey
  | some decoded ↦
      if not (length decoded == 32)
      then err (invalid_pubkey_length (length decoded))
      else ok (to_lower u (Base32.encode decoded))
]

-- the three strings that `DetectFormat` returns
pub data Format : Type 0 where
  base32 base64 unknown : Format

unfoldable pub detect_format : Bytes → Format
detect_format input =
    if input ≟ []
    then unknown
    else if contains_any input (codes "+/=")
    then base64
    else if length input == 52 && not (contains_any input (codes "+/="))
    then base32
    else unknown

unfoldable pub normalize_pubkey : Unicode → Bytes → Outcome
normalize_pubkey u input = if input ≟ [] then err empty_input else elim (detect_format input) [
  | base64 ↦ elim (Base64.decode input) [
    | none ↦ err invalid_base64_format
    | some decoded ↦
        if not (length decoded == 32)
        then err (invalid_pubkey_length (length decoded))
        else ok input
  ]
  | base32 ↦ label_to_pubkey u input
  | unknown ↦ err unknown_format
]
