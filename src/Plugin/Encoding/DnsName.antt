-- ===== src/Plugin/Encoding/DnsName.antt =====
-- The label of a WireGuard key fits into a DNS name.
use valon.Prelude.{◌+◌, ◌*◌, ◌/◌, ◌≡◌, refl, ◌∙◌, some, [], ◌∷◌, Bytes, length, arith, All}
use valon.Text.{Unicode, to_lower}
use valon.Base32
use valon.Base32.{to_digits}
use valon.Base32.RoundTrip.{IsByte}
use valon.Base64
use valon.Plugin.Encoding.{pubkey_to_dns_label}
use valon.Plugin.Encoding.Labels.{IsLabelByte, All-label, length-label}
use valon.Plugin.Encoding.RoundTrip.{pubkey_to_dns_label-encode}

-- five bits to a digit, the last of them filled up
length-to_digits : (bs : Bytes) → length (to_digits bs) ≡ (8 * length bs + 4) / 5
unfolding to_digits
length-to_digits [] = refl
length-to_digits (a ∷ []) = refl
length-to_digits (a ∷ b ∷ []) = refl
length-to_digits (a ∷ b ∷ c ∷ []) = refl
length-to_digits (a ∷ b ∷ c ∷ d ∷ []) = refl
length-to_digits (a ∷ b ∷ c ∷ d ∷ e ∷ rest) = omega (arith, length-to_digits rest)

-- The label of a key of 32 bytes is a DNS label in lower case: it has 52 bytes, of at most 63, and
-- each is a letter from a to z or a digit from 2 to 7.
pub pubkey_to_dns_label-IsLabelByte :
    (u : Unicode) (key : Bytes)
    → All IsByte key
    → length key ≡ 32
    → (label : Bytes) × (pubkey_to_dns_label u (Base64.encode key) ≡ some label)
      × (length label ≡ 52)
      × All IsLabelByte label
pubkey_to_dns_label-IsLabelByte u key bytes size = (
  to_lower u (Base32.encode key),
  pubkey_to_dns_label-encode u key bytes,
  length-label u key bytes ∙ length-to_digits key ∙ rw size refl,
  All-label u key bytes,
)
