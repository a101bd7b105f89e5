-- ===== src/Ctl/Validation.antt =====
-- valonctl/pkg/validation/dns.go. An error is a constructor with what its message prints.
pub mod Label
pub mod Accepts
pub mod Names
pub mod Sanitized
use valon.Prelude.{
  ℕ, zero, suc, ◌+◌, ◌-◌, Bool, true, false, not, ◌&&◌, ◌||◌, Option, none, some, List, [], ◌∷◌,
  ◌++◌, Bytes, String, codes, length, take, leb, ltb, if◌then◌else◌, ◌==◌, ◌≟◌,
}
use valon.Text.{Unicode, to_lower, has_prefix, has_suffix, contains, all_bytes, trim, rune_width}

abbrev pub max_label_length : ℕ
max_label_length = 63

abbrev pub max_fqdn_length : ℕ
max_fqdn_length = 253

abbrev pub max_alias_length : ℕ
max_alias_length = 32

abbrev pub hyphen : ℕ
hyphen = 45

-- [a-z0-9]
abbrev pub is_alnum : ℕ → Bool
is_alnum c = leb b'a' c && leb c b'z' || leb b'0' c && leb c b'9'

-- [a-z0-9-]
abbrev pub is_inner : ℕ → Bool
is_inner c = is_alnum c || c == hyphen

unfoldable pub ends_alnum : ℕ → Bytes → Bool
ends_alnum c [] = is_alnum c
ends_alnum c (d ∷ s) = is_inner c && ends_alnum d s

-- ^[a-z0-9]([a-z0-9-]*[a-z0-9])?$
unfoldable pub dns_label_regex : Bytes → Bool
unfolding ends_alnum
dns_label_regex [] = false
dns_label_regex (c ∷ []) = is_alnum c
dns_label_regex (c ∷ d ∷ s) = is_alnum c && ends_alnum d s

pub data AliasError : Type 0 where
  alias_empty invalid_format hyphen_at_edge consecutive_hyphens : AliasError
  alias_too_long exceeds_dns_limit : ℕ → AliasError
  reserved_prefix : Bytes → AliasError

abbrev pub reserved_prefixes : List Bytes
reserved_prefixes = codes "lan" ∷ codes "nated" ∷ codes "_wireguard" ∷ codes "_udp" ∷ []

-- the loop over the reserved prefixes
unfoldable pub check_reserved : List Bytes → Bytes → Option AliasError
check_reserved [] alias = none
check_reserved (prefix ∷ prefixes) alias =
    if has_prefix alias prefix then some (reserved_prefix prefix) else check_reserved prefixes alias

-- the checks of `ValidateAlias` on the lower-case text; `none` is the nil error
unfoldable pub check_lower : Bytes → Option AliasError
check_lower alias =
    if ltb max_alias_length (length alias)
    then some (alias_too_long (length alias))
    else if ltb max_label_length (length alias)
    then some (exceeds_dns_limit (length alias))
    else if not (dns_label_regex alias)
    then some invalid_format
    else if has_prefix alias (codes "-") || has_suffix alias (codes "-")
    then some hyphen_at_edge
    else if contains alias (codes "--")
    then some consecutive_hyphens
    else check_reserved reserved_prefixes alias

unfoldable pub validate_alias : Unicode → Bytes → Option AliasError
validate_alias u alias = if alias ≟ [] then some alias_empty else check_lower (to_lower u alias)

-- the length in the error, or `none`
unfoldable pub validate_fqdn : Bytes → Bytes → Option ℕ
validate_fqdn label zone =
    let fqdn = label ++ (codes "." ++ zone) in
    if ltb max_fqdn_length (length fqdn) then some (length fqdn) else none

-- `[^a-z0-9-]` replaced by a hyphen, rune by rune; the number counts the bytes still to be skipped
unfoldable pub replace_runes : ℕ → Bytes → Bytes
replace_runes n [] = []
replace_runes (suc n) (c ∷ s) = replace_runes n s
replace_runes zero (c ∷ s) =
    (if is_inner c then c else hyphen)
    ∷ replace_runes (if is_inner c then 0 else rune_width (c ∷ s) - 1) s

-- `-+` replaced by one hyphen; the flag says that the byte before was a hyphen
unfoldable pub squeeze : Bool → Bytes → Bytes
squeeze after [] = []
squeeze after (c ∷ s) =
    let rest = squeeze (c == hyphen) s in if after && c == hyphen then rest else c ∷ rest

pub data Warning : Type 0 where
  lowercased replaced_invalid removed_consecutive removed_edges truncated : Warning

abbrev pub warn_if : Bool → Warning → List Warning
warn_if b w = if b then w ∷ [] else []

-- The steps of `SanitizeAlias`, each with the warning that it adds.
unfoldable pub sanitize_alias : Unicode → Bytes → Bytes × List Warning
sanitize_alias u original =
    let lower = to_lower u original in
    let replaced = replace_runes 0 lower in
    let squeezed = squeeze false replaced in
    let trimmed = trim (λ c. c == hyphen) squeezed in
    let long = ltb max_alias_length (length trimmed) in
    (
      if long then take max_alias_length trimmed else trimmed,
      warn_if (not (lower ≟ original)) lowercased
          ++ (warn_if (not (replaced ≟ lower)) replaced_invalid
              ++ (warn_if (not (squeezed ≟ replaced)) removed_consecutive
                  ++ (warn_if (not (trimmed ≟ squeezed)) removed_edges ++ warn_if long truncated))),
    )
