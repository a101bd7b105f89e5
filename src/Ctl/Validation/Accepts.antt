-- ===== src/Ctl/Validation/Accepts.antt =====
-- Which aliases `ValidateAlias` accepts.
use valon.Prelude.{
  ℕ, ◌≤◌, ◌≡◌, refl, sym, subst, ◌↔◌, ◌≢◌, true, none, some, List, [], ◌∷◌, ◌++◌, Bytes, length,
  ◌≟◌, ≟_iff, All, arith, Bool-cases, inl, inr, drop,
}
use valon.Text.{Unicode, is_ascii, to_lower, has_prefix}
use valon.Text.Laws.{has_prefix-append, append_of_has_prefix}
use valon.Ctl.Validation.{
  exceeds_dns_limit, hyphen_at_edge, reserved_prefixes, check_reserved, check_lower, validate_alias,
  dns_label_regex, max_alias_length,
}
use valon.Ctl.Validation.Label.{
  MatchesLabel, NoDouble, dns_label_regex_iff, contains-NoDouble, NoDouble-contains,
  MatchesLabel-edges,
}

-- What the comments of dns.go ask of an alias.
pub record IsAlias (s : Bytes) : Type 0 where
  pub short : length s ≤ max_alias_length
  pub matches : MatchesLabel s
  pub no_double : NoDouble s
  pub unreserved : All (λ prefix. (rest : Bytes) → s ≢ prefix ++ rest) reserved_prefixes

abbrev pub Unreserved : Bytes → List Bytes → Type 0
Unreserved s prefixes = All (λ prefix. (rest : Bytes) → s ≢ prefix ++ rest) prefixes

pub check_reserved_sound :
    (ps : List Bytes) (s : Bytes) → check_reserved ps s ≡ none → Unreserved s ps
unfolding check_reserved
check_reserved_sound [] s h = tt
check_reserved_sound (p ∷ ps) s h =
    (λ rest e. cc (rw (e, has_prefix-append p rest) at h), check_reserved_sound ps s (ground arith))

check_reserved_complete :
    (ps : List Bytes) (s : Bytes) → Unreserved s ps → check_reserved ps s ≡ none
unfolding check_reserved
check_reserved_complete [] s h = refl
check_reserved_complete (p ∷ ps) s h = elim (Bool-cases (has_prefix s p)) [
  | inl yes' ↦ absurd (h.0 (drop (length p) s) (sym (append_of_has_prefix s p yes')))
  | inr no' ↦ rw no' (check_reserved_complete ps s h.1)
]

check_lower_sound : (s : Bytes) → check_lower s ≡ none → IsAlias s
unfolding check_lower
check_lower_sound s h = record {
  short = ground arith;
  matches = (dns_label_regex_iff s).0 (ground arith);
  no_double = contains-NoDouble s (ground arith);
  unreserved = check_reserved_sound reserved_prefixes s (ground arith);
}

check_lower_complete : (s : Bytes) → IsAlias s → check_lower s ≡ none
unfolding check_lower
check_lower_complete s a = ground (
  arith,
  a.short,
  (dns_label_regex_iff s).1 a.matches,
  MatchesLabel-edges s a.matches,
  NoDouble-contains s a.no_double,
  check_reserved_complete reserved_prefixes s a.unreserved,
)

IsAlias-nil : ¬ IsAlias []
unfolding dns_label_regex
IsAlias-nil a = absurd (cc ((dns_label_regex_iff []).1 a.matches))

lower-nil : (u : Unicode) → to_lower u [] ≡ []
unfolding to_lower is_ascii
lower-nil u = refl

-- `ValidateAlias` returns no error exactly for the aliases whose lower-case form is at most 32
-- bytes, matches the regular expression, has no two hyphens in a row and no reserved prefix.
pub validate_alias_iff :
    (u : Unicode) (alias : Bytes) → (validate_alias u alias ≡ none) ↔ IsAlias (to_lower u alias)
unfolding validate_alias
validate_alias_iff u alias = (
  λ h. check_lower_sound (to_lower u alias) (ground arith),
  λ a. elim (Bool-cases (alias ≟ [])) [
    | inl empty ↦ absurd (IsAlias-nil (subst IsAlias (lower-nil u) (nil_case empty a)))
    | inr some_text ↦ rw some_text (check_lower_complete (to_lower u alias) a)
  ],
)
  where
    nil_case : alias ≟ [] ≡ true → IsAlias (to_lower u alias) → IsAlias (to_lower u [])
    nil_case e a = rw ((≟_iff alias []).0 e) at a

check_reserved-reports :
    (ps : List Bytes) (s : Bytes)
    → ((n : ℕ) → check_reserved ps s ≢ some (exceeds_dns_limit n))
      × (check_reserved ps s ≢ some hyphen_at_edge)
unfolding check_reserved
check_reserved-reports [] s = (λ n h. cc, λ h. cc)
check_reserved-reports (p ∷ ps) s = (
  λ n h. (check_reserved-reports ps s).0 n (ground arith),
  λ h. (check_reserved-reports ps s).1 (ground arith),
)

check_lower-ne_dead :
    (s : Bytes)
    → ((n : ℕ) → check_lower s ≢ some (exceeds_dns_limit n)) × (check_lower s ≢ some hyphen_at_edge)
unfolding check_lower
check_lower-ne_dead s = (
  λ n h. (check_reserved-reports reserved_prefixes s).0 n (ground arith),
  λ h. elim (Bool-cases (dns_label_regex s)) [
    | inl matched ↦
        let edges = MatchesLabel-edges s ((dns_label_regex_iff s).0 matched) in
        (check_reserved-reports reserved_prefixes s).1 (ground arith)
    | inr other ↦ absurd (ground arith)
  ],
)

-- The checks of the DNS limit and of hyphens at the ends never report: those before them do.
pub validate_alias-ne_dead :
    (u : Unicode) (alias : Bytes)
    → ((n : ℕ) → validate_alias u alias ≢ some (exceeds_dns_limit n))
      × (validate_alias u alias ≢ some hyphen_at_edge)
unfolding validate_alias
validate_alias-ne_dead u alias = (
  λ n h. (check_lower-ne_dead (to_lower u alias)).0 n (ground arith),
  λ h. (check_lower-ne_dead (to_lower u alias)).1 (ground arith),
)
