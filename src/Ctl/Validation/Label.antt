-- ===== src/Ctl/Validation/Label.antt =====
-- What the regular expression of `dnsLabelRegex` matches, and the tests behind it.
use valon.Prelude.{
  ℕ, suc, ◌-◌, ◌≡◌, refl, ap, ◌∙◌, ◌↔◌, Bool, true, false, ◌&&◌, ◌||◌, Option, none, some, [], ◌∷◌,
  ◌++◌, Bytes, codes, length, length-append, drop-append_length, ◌==◌, ◌≟◌, All, arith,
}
use mathlib.Core.Option
use valon.Text.{is_some, has_prefix, has_suffix, contains, index}
use valon.Ctl.Validation.{hyphen, is_alnum, is_inner, ends_alnum, dns_label_regex}

abbrev pub IsInner : ℕ → Type 0
IsInner c = is_inner c ≡ true

-- The language of `^[a-z0-9]([a-z0-9-]*[a-z0-9])?$`.
pub data MatchesLabel (s : Bytes) : Type 0 where
  single : (c : ℕ) → is_alnum c ≡ true → s ≡ c ∷ [] → MatchesLabel s
  enclosed :
      (c : ℕ) (middle : Bytes) (d : ℕ)
      → is_alnum c ≡ true
      → All IsInner middle
      → is_alnum d ≡ true
      → s ≡ c ∷ (middle ++ d ∷ [])
      → MatchesLabel s

ends_alnum-split :
    (c : ℕ) (s : Bytes)
    → ends_alnum c s ≡ true
    → (middle : Bytes) × (d : ℕ) × (c ∷ s ≡ middle ++ d ∷ [])
      × All IsInner middle
      × (is_alnum d ≡ true)
unfolding ends_alnum
ends_alnum-split c [] h = ([], c, refl, tt, h)
ends_alnum-split c (d ∷ s) h =
    let (middle, e, eq, inner, last) = ends_alnum-split d s (ground arith) in
    (c ∷ middle, e, ap (◌∷◌ c) eq, (ground arith, inner), last)

ends_alnum-append :
    (c : ℕ) (middle : Bytes) (d : ℕ)
    → IsInner c
    → All IsInner middle
    → is_alnum d ≡ true
    → ends_alnum c (middle ++ d ∷ []) ≡ true
unfolding ends_alnum
ends_alnum-append c [] d hc h hd = rw (hc, hd)
ends_alnum-append c (e ∷ middle) d hc h hd = rw (hc, ends_alnum-append e middle d h.0 h.1 hd)

ends_alnum-tail :
    (middle : Bytes) (d : ℕ)
    → All IsInner middle
    → is_alnum d ≡ true
    → (c : ℕ) → is_alnum c ≡ true
    → dns_label_regex (c ∷ (middle ++ d ∷ [])) ≡ true
unfolding dns_label_regex
ends_alnum-tail [] d h hd c hc = rw (hc, hd, ends_alnum)
ends_alnum-tail (e ∷ middle) d h hd c hc = rw (hc, ends_alnum-append e middle d h.0 h.1 hd)

regex→MatchesLabel : (s : Bytes) → dns_label_regex s ≡ true → MatchesLabel s
unfolding dns_label_regex
regex→MatchesLabel [] h = cc
regex→MatchesLabel (c ∷ []) h = single c h refl
regex→MatchesLabel (c ∷ d ∷ s) h =
    let (middle, e, eq, inner, last) = ends_alnum-split d s (ground arith) in
    enclosed c middle e (ground arith) inner last (ap (◌∷◌ c) eq)

MatchesLabel→regex : (s : Bytes) → MatchesLabel s → dns_label_regex s ≡ true
MatchesLabel→regex s (single c h e) = rw e (unfold dns_label_regex in h)
MatchesLabel→regex s (enclosed c middle d hc inner hd e) =
    rw e (ends_alnum-tail middle d inner hd c hc)

-- The executable test decides the regular expression.
pub dns_label_regex_iff : (s : Bytes) → (dns_label_regex s ≡ true) ↔ MatchesLabel s
dns_label_regex_iff s = (regex→MatchesLabel s, MatchesLabel→regex s)

-- No hyphen stands directly behind another.
abbrev pub starts_hyphen : Bytes → Bool
starts_hyphen [] = false
starts_hyphen (c ∷ s) = c == hyphen

abbrev pub NoDouble : Bytes → Type 0
NoDouble [] = Unit
NoDouble (c ∷ s) = ((c == hyphen && starts_hyphen s) ≡ false) × NoDouble s

is_some-map : (o : Option ℕ) → is_some (Option.map suc o) ≡ is_some o
is_some-map none = refl
is_some-map (some n) = refl

contains-cons :
    (c : ℕ) (s : Bytes)
    → contains (c ∷ s) (codes "--") ≡ (c == hyphen && starts_hyphen s || contains s (codes "--"))
unfolding contains index has_prefix
contains-cons c [] = ground arith
contains-cons c (d ∷ s) = ground (arith, is_some-map (index (d ∷ s) (codes "--")))

pub contains-NoDouble : (s : Bytes) → contains s (codes "--") ≡ false → NoDouble s
contains-NoDouble [] h = tt
contains-NoDouble (c ∷ s) h =
    let e = contains-cons c s in (ground arith, contains-NoDouble s (ground arith))

pub NoDouble-contains : (s : Bytes) → NoDouble s → contains s (codes "--") ≡ false
NoDouble-contains [] h = unfold contains index has_prefix in refl
NoDouble-contains (c ∷ s) h = ground (arith, contains-cons c s, NoDouble-contains s h.1)

has_suffix-last : (s : Bytes) (d : ℕ) → has_suffix (s ++ d ∷ []) (codes "-") ≡ (d == hyphen)
unfolding has_suffix ◌≟◌
has_suffix-last s d =
    let n : length (s ++ d ∷ []) - 1 ≡ length s = omega (arith, length-append s (d ∷ [])) in
    rw (n, drop-append_length s (d ∷ [])) (ground (arith, length-append s (d ∷ [])))

-- A text that matches neither starts nor ends with a hyphen.
pub MatchesLabel-edges :
    (s : Bytes)
    → MatchesLabel s
    → (has_prefix s (codes "-") ≡ false) × (has_suffix s (codes "-") ≡ false)
MatchesLabel-edges s (single c h e) =
    rw e (unfold has_prefix in ground arith, has_suffix-last [] c ∙ ground arith)
MatchesLabel-edges s (enclosed c middle d hc inner hd e) =
    rw e (unfold has_prefix in ground arith, has_suffix-last (c ∷ middle) d ∙ ground arith)
