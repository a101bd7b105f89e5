-- ===== src/Base64/Plain.antt =====
-- Base64 text is ASCII and has no white space.
use valon.Prelude.{
  ℕ, ◌+◌, ◌*◌, ◌/◌, ◌%◌, ◌<◌, ◌≡◌, refl, true, false, [], ◌∷◌, Bytes, arith, All, ltb,
}
use valon.Text.{Unicode, is_ascii, is_space, drop_while, trim_right, trim, trim_space}
use valon.Base32.RoundTrip.{IsByte}
use valon.Base64.{digit_char, encode}

abbrev IsPlain : ℕ → Type 0
IsPlain c = (is_space c ≡ false) × (ltb c 128 ≡ true)

digit_char-IsPlain : (d : ℕ) → d < 64 → IsPlain (digit_char d)
unfolding digit_char is_space
digit_char-IsPlain d h = ground arith

equals-IsPlain : IsPlain b'='
unfolding is_space
equals-IsPlain = (refl, refl)

encode-IsPlain : (bs : Bytes) → All IsByte bs → All IsPlain (encode bs)
unfolding encode
encode-IsPlain [] h = tt
encode-IsPlain (a ∷ []) h = (
  digit_char-IsPlain (a / 4) (omega arith),
  (digit_char-IsPlain (a % 4 * 16) (omega arith), (equals-IsPlain, (equals-IsPlain, tt))),
)
encode-IsPlain (a ∷ b ∷ []) h = (
  digit_char-IsPlain (a / 4) (omega arith),
  (
    digit_char-IsPlain (a % 4 * 16 + b / 16) (omega arith),
    (digit_char-IsPlain (b % 16 * 4) (omega arith), (equals-IsPlain, tt)),
  ),
)
encode-IsPlain (a ∷ b ∷ c ∷ rest) h = (
  digit_char-IsPlain (a / 4) (omega arith),
  (
    digit_char-IsPlain (a % 4 * 16 + b / 16) (omega arith),
    (
      digit_char-IsPlain (b % 16 * 4 + c / 64) (omega arith),
      (digit_char-IsPlain (c % 64) (omega arith), encode-IsPlain rest h.1.1.1),
    ),
  ),
)

is_ascii-plain : (s : Bytes) → All IsPlain s → is_ascii s ≡ true
unfolding is_ascii
is_ascii-plain [] h = refl
is_ascii-plain (c ∷ s) h = rw (h.0.1, is_ascii-plain s h.1)

drop_while-plain : (s : Bytes) → All IsPlain s → drop_while is_space s ≡ s
unfolding drop_while
drop_while-plain [] h = refl
drop_while-plain (c ∷ s) h = rw h.0.0

trim_right-plain : (s : Bytes) → All IsPlain s → trim_right is_space s ≡ s
unfolding trim_right
trim_right-plain [] h = refl
trim_right-plain (c ∷ []) h = rw h.0.0
trim_right-plain (c ∷ d ∷ s) h = rw (trim_right-plain (d ∷ s) h.1)

pub trim_space-encode :
    (u : Unicode) (bs : Bytes) → All IsByte bs → trim_space u (encode bs) ≡ encode bs
unfolding trim_space trim
trim_space-encode u bs h =
    let plain = encode-IsPlain bs h in
    rw (is_ascii-plain (encode bs) plain)
      (rw (drop_while-plain (encode bs) plain) (trim_right-plain (encode bs) plain))
