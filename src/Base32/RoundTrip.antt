-- ===== src/Base32/RoundTrip.antt =====
-- Decoding undoes encoding.
use valon.Prelude.{
  ℕ, ◌+◌, ◌*◌, ◌/◌, ◌<◌, ◌≡◌, refl, ap, some, List, [], ◌∷◌, map, Bytes, arith, All, length,
}
use valon.Base32.{
  digit_char, char_digit, to_digits, encode, pack, strip_newlines, read_digits, decode,
}

abbrev pub IsByte : ℕ → Type 0
IsByte b = b < 256

abbrev pub IsDigit : ℕ → Type 0
IsDigit d = d < 32

char_digit-digit_char : (d : ℕ) → d < 32 → char_digit (digit_char d) ≡ some d
unfolding char_digit digit_char
char_digit-digit_char d h = ground arith

pub strip_newlines-encoded : (ds : List ℕ) → strip_newlines (map digit_char ds) ≡ map digit_char ds
unfolding strip_newlines digit_char
strip_newlines-encoded [] = refl
strip_newlines-encoded (d ∷ ds) = ground (arith, strip_newlines-encoded ds)

read_digits-map : (ds : List ℕ) → All IsDigit ds → read_digits (map digit_char ds) ≡ some ds
unfolding read_digits
read_digits-map [] h = refl
read_digits-map (d ∷ ds) h = rw (char_digit-digit_char d h.0, read_digits-map ds h.1, read_digits)

pub to_digits-IsDigit : (bs : Bytes) → All IsByte bs → All IsDigit (to_digits bs)
unfolding to_digits
to_digits-IsDigit [] h = tt
to_digits-IsDigit (a ∷ []) h = omega arith
to_digits-IsDigit (a ∷ b ∷ []) h = omega arith
to_digits-IsDigit (a ∷ b ∷ c ∷ []) h = omega arith
to_digits-IsDigit (a ∷ b ∷ c ∷ d ∷ []) h = omega arith
to_digits-IsDigit (a ∷ b ∷ c ∷ d ∷ e ∷ rest) h =
    let tail = to_digits-IsDigit rest h.1.1.1.1.1 in
    (
      omega arith,
      (
        omega arith,
        (
          omega arith,
          (omega arith, (omega arith, (omega arith, (omega arith, (omega arith, tail))))),
        ),
      ),
    )

pack-to_digits : (bs : Bytes) → All IsByte bs → pack (to_digits bs) ≡ bs
unfolding pack to_digits
pack-to_digits [] h = refl
pack-to_digits (a ∷ []) h = ground arith
pack-to_digits (a ∷ b ∷ []) h = ground arith
pack-to_digits (a ∷ b ∷ c ∷ []) h = ground arith
pack-to_digits (a ∷ b ∷ c ∷ d ∷ []) h = ground arith
pack-to_digits (a ∷ b ∷ c ∷ d ∷ e ∷ rest) h = ground (arith, pack-to_digits rest)

-- decode (encode bs) is bs, for every list of bytes
pub decode-encode : (bs : Bytes) → All IsByte bs → decode (encode bs) ≡ some bs
unfolding decode encode
decode-encode bs h =
    rw (strip_newlines-encoded (to_digits bs))
      (rw (read_digits-map (to_digits bs) (to_digits-IsDigit bs h)) (ap some (pack-to_digits bs h)))

-- Eight digits for five bytes, and for a shorter last group as many as its bits need.
pub length-to_digits : (bs : Bytes) → length (to_digits bs) ≡ (length bs * 8 + 4) / 5
unfolding to_digits
length-to_digits [] = refl
length-to_digits (a ∷ []) = refl
length-to_digits (a ∷ b ∷ []) = refl
length-to_digits (a ∷ b ∷ c ∷ []) = refl
length-to_digits (a ∷ b ∷ c ∷ d ∷ []) = refl
length-to_digits (a ∷ b ∷ c ∷ d ∷ e ∷ rest) = omega (arith, length-to_digits rest)
