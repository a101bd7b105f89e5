-- ===== src/Tests/Names.antt =====
-- Keys, labels and aliases.
use valon.Prelude.{
  All, length, Bytes, some, ◌≤◌, ◌≡◌, ◌≢◌, refl, ◌↔◌, none, some, [], Bytes, codes, ne_of_≟, length,
  ◌≟◌, ◌>>=◌, arith,
}
use valon.Text.{to_lower, has_prefix, trim, rune_width}
use valon.Base64
use valon.Plugin.Encoding.{dns_label_to_pubkey, pubkey_to_dns_label}
use valon.Plugin.Encoding.Labels.{IsLabelByte}
use valon.Plugin.Encoding.DnsName.{pubkey_to_dns_label-IsLabelByte}
use valon.Plugin.Encoding.RoundTrip.{dns_label_to_pubkey-pubkey_to_dns_label}
use valon.Ctl.Validation.{
  reserved_prefixes, check_reserved, replace_runes, squeeze, validate_alias, sanitize_alias,
}
use valon.Ctl.Validation.Accepts.{IsAlias, Unreserved, check_reserved_sound, validate_alias_iff}
use valon.Tests.Samples.{no_runes, key, key-bytes}

dns_label_to_pubkey-pubkey_to_dns_label_example :
    (pubkey_to_dns_label no_runes (Base64.encode key) >>= dns_label_to_pubkey no_runes)
    ≡ some (Base64.encode key)
dns_label_to_pubkey-pubkey_to_dns_label_example =
    dns_label_to_pubkey-pubkey_to_dns_label no_runes key key-bytes

validate_alias_iff_example :
    (validate_alias no_runes (codes "My-Laptop") ≡ none)
    ↔ IsAlias (to_lower no_runes (codes "My-Laptop"))
validate_alias_iff_example = validate_alias_iff no_runes (codes "My-Laptop")

laptop : (sanitize_alias no_runes (codes "--My  Laptop!")).0 ≡ codes "my-laptop"
unfolding sanitize_alias trim squeeze replace_runes to_lower rune_width
laptop = refl

abbrev clean : Bytes
clean = (sanitize_alias no_runes (codes "--My  Laptop!")).0

clean-short : length clean ≤ 31
clean-short = rw laptop (omega arith)

clean-ne_nil : clean ≢ []
unfolding ◌≟◌
clean-ne_nil = rw laptop (ne_of_≟ (codes "my-laptop") [] refl)

clean-Unreserved : Unreserved clean reserved_prefixes
unfolding check_reserved has_prefix
clean-Unreserved = rw laptop (check_reserved_sound reserved_prefixes (codes "my-laptop") refl)

pubkey_to_dns_label-IsLabelByte_example :
    (label : Bytes) × (pubkey_to_dns_label no_runes (Base64.encode key) ≡ some label)
    × (length label ≡ 52)
    × All IsLabelByte label
pubkey_to_dns_label-IsLabelByte_example =
    pubkey_to_dns_label-IsLabelByte no_runes key key-bytes refl
