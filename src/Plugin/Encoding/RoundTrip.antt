-- ===== src/Plugin/Encoding/RoundTrip.antt =====
-- A key and its DNS label determine one another.
use valon.Prelude.{Bytes, All, ◌≡◌, some, ◌>>=◌}
use valon.Text.{Unicode, to_lower}
use valon.Base32
use valon.Base32.RoundTrip.{IsByte}
use valon.Base64
use valon.Plugin.Encoding.{dns_label_to_pubkey, pubkey_to_dns_label}
use valon.Plugin.Encoding.Labels.{upper-label}

module _ (u : Unicode) (bytes : Bytes) (are_bytes : All IsByte bytes) where
  pub pubkey_to_dns_label-encode :
      pubkey_to_dns_label u (Base64.encode bytes) ≡ some (to_lower u (Base32.encode bytes))
  unfolding pubkey_to_dns_label
  pubkey_to_dns_label-encode = rw (Base64.RoundTrip.decode-encode bytes are_bytes)

  pub dns_label_to_pubkey-label :
      dns_label_to_pubkey u (to_lower u (Base32.encode bytes)) ≡ some (Base64.encode bytes)
  unfolding dns_label_to_pubkey
  dns_label_to_pubkey-label =
      rw (upper-label u bytes are_bytes, Base32.RoundTrip.decode-encode bytes are_bytes)

  -- The base64 form of any bytes has a DNS label, and the label leads back to that form.
  pub dns_label_to_pubkey-pubkey_to_dns_label :
      (pubkey_to_dns_label u (Base64.encode bytes) >>= dns_label_to_pubkey u)
      ≡ some (Base64.encode bytes)
  dns_label_to_pubkey-pubkey_to_dns_label = rw pubkey_to_dns_label-encode dns_label_to_pubkey-label
