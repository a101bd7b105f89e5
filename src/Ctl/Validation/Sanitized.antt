-- ===== src/Ctl/Validation/Sanitized.antt =====
-- What `SanitizeAlias` returns.
use valon.Prelude.{
  ℕ, zero, suc, ◌≤◌, ◌≡◌, refl, ◌≢◌, Bool, true, false, none, [], ◌∷◌, Bytes, length, length-take,
  ltb, if◌then◌else◌, ◌==◌, All, All-take, arith, Bool-cases, List-cases, inl, inr, take, map,
  subst, ltb→lt, le_of_ltb,
}
use valon.Text.{is_ascii, lower_byte, Unicode, to_lower, drop_while, trim_right, trim}
use valon.Ctl.Validation.{
  hyphen, ends_alnum, max_alias_length, dns_label_regex, reserved_prefixes, validate_alias,
  replace_runes, squeeze, sanitize_alias,
}
use valon.Ctl.Validation.Accepts.{Unreserved, validate_alias_iff}
use valon.Ctl.Validation.Label.{MatchesLabel, dns_label_regex_iff, IsInner, NoDouble, starts_hyphen}

abbrev is_hyphen : ℕ → Bool
is_hyphen c = c == hyphen

replace_runes-IsInner : (s : Bytes) (n : ℕ) → All IsInner (replace_runes n s)
unfolding replace_runes
replace_runes-IsInner [] zero = tt
replace_runes-IsInner [] (suc n) = tt
replace_runes-IsInner (c ∷ s) (suc n) = replace_runes-IsInner s n
replace_runes-IsInner (c ∷ s) zero = (ground arith, replace_runes-IsInner s _)

squeeze-IsInner : (b : Bool) (s : Bytes) → All IsInner s → All IsInner (squeeze b s)
unfolding squeeze
squeeze-IsInner b [] h = tt
squeeze-IsInner b (c ∷ s) h = ground (arith, squeeze-IsInner (c == hyphen) s h.1)

squeeze-NoDouble :
    (b : Bool) (s : Bytes)
    → NoDouble (squeeze b s) × (b ≡ true → starts_hyphen (squeeze b s) ≡ false)
unfolding squeeze
squeeze-NoDouble b [] = (tt, λ h. refl)
squeeze-NoDouble b (c ∷ s) = let ih = squeeze-NoDouble (c == hyphen) s in ground arith

drop_while-IsInner : (s : Bytes) → All IsInner s → All IsInner (drop_while is_hyphen s)
unfolding drop_while
drop_while-IsInner [] h = tt
drop_while-IsInner (c ∷ s) h = ground (arith, drop_while-IsInner s h.1)

drop_while-NoDouble : (s : Bytes) → NoDouble s → NoDouble (drop_while is_hyphen s)
unfolding drop_while
drop_while-NoDouble [] h = tt
drop_while-NoDouble (c ∷ s) h = ground (arith, drop_while-NoDouble s h.1)

drop_while-starts : (s : Bytes) → starts_hyphen (drop_while is_hyphen s) ≡ false
unfolding drop_while
drop_while-starts [] = refl
drop_while-starts (c ∷ s) = ground (arith, drop_while-starts s)

trim_right-IsInner : (s : Bytes) → All IsInner s → All IsInner (trim_right is_hyphen s)
unfolding trim_right
trim_right-IsInner [] h = tt
trim_right-IsInner (c ∷ s) h = let ih = trim_right-IsInner s h.1 in ground arith

trim_right-starts :
    (s : Bytes) → starts_hyphen s ≡ false → starts_hyphen (trim_right is_hyphen s) ≡ false
unfolding trim_right
trim_right-starts [] h = refl
trim_right-starts (c ∷ s) h = ground arith

NoDouble-one : (c : ℕ) (b : Bool) → NoDouble (if b then [] else c ∷ [])
NoDouble-one c true = tt
NoDouble-one c false = (ground arith, tt)

trim_right-NoDouble : (s : Bytes) → NoDouble s → NoDouble (trim_right is_hyphen s)
unfolding trim_right
trim_right-NoDouble [] h = tt
trim_right-NoDouble (c ∷ s) h = elim (List-cases (trim_right is_hyphen s)) [
  | inl none_left ↦ rw none_left (NoDouble-one c (is_hyphen c))
  | inr (x, rest, left) ↦
      rw left (ground (arith, trim_right-starts s), subst NoDouble left (trim_right-NoDouble s h.1))
]

-- what is left by the trimming of the right end does not end in a hyphen
trim_right-ends :
    (s : Bytes)
    → All IsInner s
    → (d : ℕ) (t : Bytes) → trim_right is_hyphen s ≡ d ∷ t
    → ends_alnum d t ≡ true
unfolding trim_right ends_alnum
trim_right-ends [] h d t e = cc
trim_right-ends (c ∷ s) h d t e = elim (List-cases (trim_right is_hyphen s)) [
  | inl none_left ↦ ground arith
  | inr (x, rest, left) ↦ let ih = trim_right-ends s h.1 x rest left in ground arith
]

NoDouble-take : (n : ℕ) (s : Bytes) → NoDouble s → NoDouble (take n s)
NoDouble-take zero s h = tt
NoDouble-take (suc n) [] h = tt
NoDouble-take (suc zero) (c ∷ s) h = (ground arith, tt)
NoDouble-take (suc (suc n)) (c ∷ []) h = (ground arith, tt)
NoDouble-take (suc (suc n)) (c ∷ d ∷ s) h = (h.0, NoDouble-take (suc n) (d ∷ s) h.1)

starts_hyphen-take :
    (n : ℕ) (s : Bytes) → starts_hyphen s ≡ false → starts_hyphen (take n s) ≡ false
starts_hyphen-take zero s h = refl
starts_hyphen-take (suc n) [] h = refl
starts_hyphen-take (suc n) (c ∷ s) h = h

-- the text after the steps before the last, for any lower-case text
abbrev trimmed_text : Bytes → Bytes
trimmed_text lower = trim is_hyphen (squeeze false (replace_runes 0 lower))

-- what the steps before the last leave
record IsTrimmed (s : Bytes) : Type 0 where
  inner : All IsInner s
  no_double : NoDouble s
  starts : starts_hyphen s ≡ false
  ends : (d : ℕ) (t : Bytes) → s ≡ d ∷ t → ends_alnum d t ≡ true

trimmed_text-IsTrimmed : (lower : Bytes) → IsTrimmed (trimmed_text lower)
unfolding trim
trimmed_text-IsTrimmed lower =
    let inner = squeeze-IsInner false _ (replace_runes-IsInner lower 0) in
    let squeezed = (squeeze-NoDouble false (replace_runes 0 lower)).0 in
    let dropped = drop_while-IsInner _ inner in
    record {
      inner = trim_right-IsInner _ dropped;
      no_double = trim_right-NoDouble _ (drop_while-NoDouble _ squeezed);
      starts =
          trim_right-starts (drop_while is_hyphen (squeeze false (replace_runes 0 lower)))
            (drop_while-starts (squeeze false (replace_runes 0 lower)));
      ends = trim_right-ends _ dropped;
    }

abbrev cut : Bytes → Bytes
cut s = if ltb max_alias_length (length s) then take max_alias_length s else s

-- at most 32 bytes, all in [a-z0-9-], no hyphen in front and no two in a row
pub record IsClean (s : Bytes) : Type 0 where
  pub short : length s ≤ max_alias_length
  pub inner : All IsInner s
  pub no_double : NoDouble s
  pub starts : starts_hyphen s ≡ false

cut-IsClean : (s : Bytes) → IsTrimmed s → IsClean (cut s)
cut-IsClean s t = elim (Bool-cases (ltb max_alias_length (length s))) [
  | inl long ↦ rw long (record {
    short = omega (arith, length-take {0} 32 s);
    inner = All-take IsInner 32 s t.inner;
    no_double = NoDouble-take 32 s t.no_double;
    starts = starts_hyphen-take 32 s t.starts;
  })
  | inr fits ↦ rw fits (record {
    short = le_of_ltb max_alias_length (length s) fits;
    inner = t.inner;
    no_double = t.no_double;
    starts = t.starts;
  })
]

-- The sanitised alias has at most 32 bytes, all of them lower-case letters, digits or hyphens; it
-- does not start with a hyphen and has no two in a row.
pub sanitize_alias-IsClean : (u : Unicode) (alias : Bytes) → IsClean (sanitize_alias u alias).0
unfolding sanitize_alias
sanitize_alias-IsClean u alias = cut-IsClean _ (trimmed_text-IsTrimmed (to_lower u alias))

regex_of_ends :
    (s : Bytes)
    → All IsInner s
    → starts_hyphen s ≡ false
    → ((d : ℕ) (t : Bytes) → s ≡ d ∷ t → ends_alnum d t ≡ true)
    → s ≢ []
    → dns_label_regex s ≡ true
unfolding dns_label_regex ends_alnum
regex_of_ends [] inner starts ends ne = absurd (ne refl)
regex_of_ends (c ∷ []) inner starts ends ne = ends c [] refl
regex_of_ends (c ∷ d ∷ s) inner starts ends ne = ground (arith, ends c (d ∷ s) refl)

inner-lower : (s : Bytes) → All IsInner s → (is_ascii s ≡ true) × (map lower_byte s ≡ s)
unfolding is_ascii lower_byte
inner-lower [] h = (refl, refl)
inner-lower (c ∷ s) h = let ih = inner-lower s h.1 in (ground arith, ground arith)

to_lower-inner : (u : Unicode) (s : Bytes) → All IsInner s → to_lower u s ≡ s
unfolding to_lower
to_lower-inner u s h = rw (inner-lower s h).0 (inner-lower s h).1

cut_long : (s : Bytes) → ltb 32 (length s) ≡ true → length (cut s) ≤ 31 → ⊥
cut_long s long h =
    let h' : length (take 32 s) ≤ 31 = rw long at h in
    omega (arith, length-take {0} 32 s, ltb→lt 32 (length s) long)

cut-MatchesLabel :
    (s : Bytes) → IsTrimmed s → length (cut s) ≤ 31 → cut s ≢ [] → MatchesLabel (cut s)
cut-MatchesLabel s t h ne = elim (Bool-cases (ltb max_alias_length (length s))) [
  | inl long ↦ absurd (cut_long s long h)
  | inr fits ↦
      let ne' : s ≢ [] = rw fits at ne in
      rw fits ((dns_label_regex_iff s).0 (regex_of_ends s t.inner t.starts t.ends ne'))
]

sanitize_alias-MatchesLabel :
    (u : Unicode) (alias : Bytes)
    → length (sanitize_alias u alias).0 ≤ 31
    → (sanitize_alias u alias).0 ≢ []
    → MatchesLabel (sanitize_alias u alias).0
unfolding sanitize_alias
sanitize_alias-MatchesLabel u alias =
    cut-MatchesLabel (trimmed_text (to_lower u alias)) (trimmed_text-IsTrimmed (to_lower u alias))

-- A sanitised alias that is shorter than 32 bytes, not empty and without a reserved prefix passes
-- `ValidateAlias`.
validate_alias-sanitize_alias :
    (u : Unicode) (alias : Bytes)
    → length (sanitize_alias u alias).0 ≤ 31
    → (sanitize_alias u alias).0 ≢ []
    → Unreserved (sanitize_alias u alias).0 reserved_prefixes
    → validate_alias u (sanitize_alias u alias).0 ≡ none
validate_alias-sanitize_alias u alias short ne free =
    let clean = sanitize_alias-IsClean u alias in
    (validate_alias_iff u (sanitize_alias u alias).0).1 (
      rw (to_lower-inner u (sanitize_alias u alias).0 clean.inner) (record {
        short = clean.short;
        matches = sanitize_alias-MatchesLabel u alias short ne;
        no_double = clean.no_double;
        unreserved = free;
      }))
