-- ===== src/Plugin/Encoding.antt =====
-- coredns-plugin/valon/encoding.go. What an error says is only logged, so a failure is `none`.
pub mod Labels
pub mod RoundTrip
pub mod DnsName
use valon.Prelude.{Option, none, some, Bytes, ◌>>=◌}
use valon.Text.{Unicode, to_upper, to_lower}
use valon.Base32
use valon.Base64

unfoldable pub dns_label_to_pubkey : Unicode → Bytes → Option Bytes
dns_label_to_pubkey u label = do
  let upper = to_upper u label
  decoded ← Base32.decode upper
  some (Base64.encode decoded)

unfoldable pub pubkey_to_dns_label : Unicode → Bytes → Option Bytes
pubkey_to_dns_label u pubkey = do
  decoded ← Base64.decode pubkey
  let label = Base32.encode decoded
  some (to_lower u label)
