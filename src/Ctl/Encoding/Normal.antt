-- ===== src/Ctl/Encoding/Normal.antt =====
-- The two forms of a key of 32 bytes, and what they are normalised to.
use valon.Prelude.{
  ℕ, suc, ◌+◌, ◌-◌, ◌*◌, ◌≡◌, refl, true, false, [], ◌∷◌, Bytes, codes, length, ◌≟◌, ok, All, arith,
}
use valon.Text.{Unicode, to_lower, has_byte, contains_any}
use valon.Base32
use valon.Base32.RoundTrip.{IsByte, length-to_digits}
use valon.Base64
use valon.Base64.RoundTrip.{length-encode}
use valon.Plugin.Encoding.Labels.{All-label, length-label, upper-label, IsLabelByte}
use valon.Ctl.Encoding.{
  base32, base64, label_to_pubkey, pubkey_to_label, detect_format, normalize_pubkey,
}

≟-nil_of_length : (s : Bytes) (n : ℕ) → length s ≡ suc n → s ≟ [] ≡ false
unfolding ◌≟◌
≟-nil_of_length [] n h = absurd (omega arith)
≟-nil_of_length (c ∷ s) n h = refl

label-lacks_base64 : (s : Bytes) → All IsLabelByte s → contains_any s (codes "+/=") ≡ false
unfolding contains_any has_byte
label-lacks_base64 [] h = refl
label-lacks_base64 (c ∷ s) h = ground (arith, label-lacks_base64 s h.1)

-- base64 of a length that is no multiple of three ends in `=`
encode-has_base64 :
    (k : ℕ) (bs : Bytes)
    → length bs ≡ k * 3 + 2
    → contains_any (Base64.encode bs) (codes "+/=") ≡ true
unfolding contains_any has_byte Base64.encode
encode-has_base64 k [] h = absurd (omega arith)
encode-has_base64 k (a ∷ []) h = absurd (omega arith)
encode-has_base64 k (a ∷ b ∷ []) h = ground arith
encode-has_base64 k (a ∷ b ∷ c ∷ rest) h =
    ground (arith, encode-has_base64 (k - 1) rest (omega arith))

module _ (u : Unicode) (key : Bytes) (are_bytes : All IsByte key) (is_key : length key ≡ 32) where
  length-key_label : length (to_lower u (Base32.encode key)) ≡ 52
  length-key_label = omega (arith, length-label u key are_bytes, length-to_digits key)

  length-key_base64 : length (Base64.encode key) ≡ 44
  length-key_base64 = omega (arith, length-encode key)

  pub pubkey_to_label-key :
      pubkey_to_label u (Base64.encode key) ≡ ok (to_lower u (Base32.encode key))
  unfolding pubkey_to_label
  pubkey_to_label-key = rw (
    ≟-nil_of_length (Base64.encode key) 43 length-key_base64,
    Base64.RoundTrip.decode-encode key are_bytes,
    is_key,
  )

  pub label_to_pubkey-key :
      label_to_pubkey u (to_lower u (Base32.encode key)) ≡ ok (Base64.encode key)
  unfolding label_to_pubkey
  label_to_pubkey-key = rw (
    ≟-nil_of_length (to_lower u (Base32.encode key)) 51 length-key_label,
    upper-label u key are_bytes,
    Base32.RoundTrip.decode-encode key are_bytes,
  )

  detect_format-label : detect_format (to_lower u (Base32.encode key)) ≡ base32
  unfolding detect_format
  detect_format-label = rw (
    ≟-nil_of_length (to_lower u (Base32.encode key)) 51 length-key_label,
    label-lacks_base64 _ (All-label u key are_bytes),
    length-key_label,
  )

  detect_format-base64 : detect_format (Base64.encode key) ≡ base64
  unfolding detect_format
  detect_format-base64 =
      rw (≟-nil_of_length (Base64.encode key) 43 length-key_base64, encode-has_base64 10 key is_key)

  -- The base64 form and the DNS label of a key of 32 bytes are normalised to the base64 form.
  normalize_pubkey-key :
      (normalize_pubkey u (Base64.encode key) ≡ ok (Base64.encode key))
      × (normalize_pubkey u (to_lower u (Base32.encode key)) ≡ ok (Base64.encode key))
  unfolding normalize_pubkey
  normalize_pubkey-key = (
    rw (
      ≟-nil_of_length (Base64.encode key) 43 length-key_base64,
      detect_format-base64,
      Base64.RoundTrip.decode-encode key are_bytes,
      is_key,
    ),
    rw (
      ≟-nil_of_length (to_lower u (Base32.encode key)) 51 length-key_label,
      detect_format-label,
      label_to_pubkey-key,
    ),
  )
