-- ===== src/Base64/RoundTrip.antt =====
-- Decoding undoes encoding.
use valon.Prelude.{
  ℕ, ◌+◌, ◌*◌, ◌/◌, ◌%◌, ◌<◌, ◌≡◌, refl, ◌≢◌, some, [], ◌∷◌, Bytes, arith, All, length, ◌>>=◌, ◌∙◌,
}
use valon.Base32.RoundTrip.{IsByte}
use valon.Base64.{
  digit_char, char_digit, encode, padded, quantum, strip_newlines, decode_groups, decode,
}

char_digit-digit_char : (d : ℕ) → d < 64 → char_digit (digit_char d) ≡ some d
unfolding char_digit digit_char
char_digit-digit_char d h = ground arith

digit_char-plain :
    (d : ℕ) → d < 64 → (digit_char d ≢ 10) × (digit_char d ≢ 13) × (digit_char d ≢ b'=')
unfolding digit_char
digit_char-plain d h = ground arith

strip_newlines-cons :
    (c : ℕ) (s : Bytes) → c ≢ 10 → c ≢ 13 → strip_newlines (c ∷ s) ≡ c ∷ strip_newlines s
unfolding strip_newlines
strip_newlines-cons c s h k = ground arith

strip_newlines-digit :
    (d : ℕ) (s : Bytes)
    → d < 64
    → strip_newlines (digit_char d ∷ s) ≡ digit_char d ∷ strip_newlines s
strip_newlines-digit d s h =
    strip_newlines-cons (digit_char d) s (digit_char-plain d h).0 (digit_char-plain d h).1

quantum-digits :
    (p q r s : ℕ) (rest : Bytes)
    → p < 64
    → q < 64
    → r < 64
    → s < 64
    → quantum (digit_char p) (digit_char q) (digit_char r) (digit_char s) rest
      ≡ some ((p * 4 + q / 16) ∷ (q % 16 * 16 + r / 4) ∷ (r % 4 * 64 + s) ∷ rest)
unfolding quantum
quantum-digits p q r s rest hp hq hr hs = rw (
  char_digit-digit_char p hp,
  char_digit-digit_char q hq,
  char_digit-digit_char r hr,
  char_digit-digit_char s hs,
)

strip_newlines-encode : (bs : Bytes) → All IsByte bs → strip_newlines (encode bs) ≡ encode bs
unfolding encode
strip_newlines-encode [] h = unfold strip_newlines in refl
strip_newlines-encode (a ∷ []) h =
    rw
      (
        strip_newlines-digit (a / 4) _ (omega arith),
        strip_newlines-digit (a % 4 * 16) _ (omega arith),
      )
      (unfold strip_newlines in refl)
strip_newlines-encode (a ∷ b ∷ []) h =
    rw
      (
        strip_newlines-digit (a / 4) _ (omega arith),
        strip_newlines-digit (a % 4 * 16 + b / 16) _ (omega arith),
        strip_newlines-digit (b % 16 * 4) _ (omega arith),
      )
      (unfold strip_newlines in refl)
strip_newlines-encode (a ∷ b ∷ c ∷ rest) h = rw (
  strip_newlines-digit (a / 4) _ (omega arith),
  strip_newlines-digit (a % 4 * 16 + b / 16) _ (omega arith),
  strip_newlines-digit (b % 16 * 4 + c / 64) _ (omega arith),
  strip_newlines-digit (c % 64) _ (omega arith),
  strip_newlines-encode rest h.1.1.1,
)

-- a group in front of more input, or at its end with no padding
decode_groups-group :
    (a b c d : ℕ) (rest : Bytes)
    → d ≢ b'='
    → decode_groups (a ∷ b ∷ c ∷ d ∷ rest) ≡ (do bytes ← decode_groups rest; quantum a b c d bytes)
unfolding decode_groups
decode_groups-group a b c d [] h = ground arith
decode_groups-group a b c d (x ∷ rest) h = refl

decode_groups-encode : (bs : Bytes) → All IsByte bs → decode_groups (encode bs) ≡ some bs
unfolding encode
decode_groups-encode [] h = unfold decode_groups in refl
decode_groups-encode (a ∷ []) h =
    unfold decode_groups padded in
    ground (
      arith,
      char_digit-digit_char (a / 4) (omega arith),
      char_digit-digit_char (a % 4 * 16) (omega arith),
    )
decode_groups-encode (a ∷ b ∷ []) h =
    unfold decode_groups padded in
    ground (
      arith,
      char_digit-digit_char (a / 4) (omega arith),
      char_digit-digit_char (a % 4 * 16 + b / 16) (omega arith),
      char_digit-digit_char (b % 16 * 4) (omega arith),
      digit_char-plain (b % 16 * 4) (omega arith),
    )
decode_groups-encode (a ∷ b ∷ c ∷ rest) h =
    rw
      (
        decode_groups-group (digit_char (a / 4)) _ _ _ (encode rest)
            (digit_char-plain (c % 64) (omega arith)).2,
        decode_groups-encode rest h.1.1.1,
      )
      (quantum-digits (a / 4) (a % 4 * 16 + b / 16) (b % 16 * 4 + c / 64) (c % 64) rest
          (omega arith) (omega arith) (omega arith) (omega arith)
        ∙ ground arith)

-- decode (encode bs) is bs, for every list of bytes
pub decode-encode : (bs : Bytes) → All IsByte bs → decode (encode bs) ≡ some bs
unfolding decode
decode-encode bs h = rw (strip_newlines-encode bs h) (decode_groups-encode bs h)

-- Four characters for three bytes or part of three.
pub length-encode : (bs : Bytes) → length (encode bs) ≡ (length bs + 2) / 3 * 4
unfolding encode
length-encode [] = refl
length-encode (a ∷ []) = refl
length-encode (a ∷ b ∷ []) = refl
length-encode (a ∷ b ∷ c ∷ rest) = omega (arith, length-encode rest)
