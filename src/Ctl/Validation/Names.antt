-- ===== src/Ctl/Validation/Names.antt =====
-- What an alias that `ValidateAlias` accepts has none of, where its lower-case form is the alias.
use valon.Prelude.{
  ℕ, ◌≡◌, refl, subst, true, false, none, [], ◌∷◌, ◌++◌, Bytes, codes, All, arith, ◌≟◌, ◌==◌,
}
use valon.Text.{Unicode, is_ascii, to_lower, has_prefix, split}
use valon.Text.Path.{IsPlain}
use valon.Ctl.Validation.{is_alnum, is_inner, validate_alias}
use valon.Ctl.Validation.Label.{IsInner, MatchesLabel, single, enclosed}
use valon.Ctl.Validation.Accepts.{IsAlias, validate_alias_iff}

All-middle :
    (c : ℕ) (middle : Bytes) (d : ℕ)
    → is_alnum c ≡ true
    → All IsInner middle
    → is_alnum d ≡ true
    → All IsInner (c ∷ (middle ++ d ∷ []))
All-middle c [] d hc h hd = (rw hc refl, (rw hd refl, tt))
All-middle c (m ∷ middle) d hc h hd = (rw hc refl, inner m middle h)
  where
    inner : (m : ℕ) (ms : Bytes) → All IsInner (m ∷ ms) → All IsInner (m ∷ (ms ++ d ∷ []))
    inner m [] h = (h.0, (rw hd refl, tt))
    inner m (n ∷ ms) h = (h.0, inner n ms h.1)

All-MatchesLabel : (s : Bytes) → MatchesLabel s → All IsInner s
All-MatchesLabel s (single c h e) = rw e (rw h refl, tt)
All-MatchesLabel s (enclosed c middle d hc h hd e) = rw e (All-middle c middle d hc h hd)

is_ascii-inner : (s : Bytes) → All IsInner s → is_ascii s ≡ true
unfolding is_ascii
is_ascii-inner [] h = refl
is_ascii-inner (c ∷ s) h = let low = h.0 in ground (arith, is_ascii-inner s h.1)

split-inner : (s : Bytes) → All IsInner s → split s b'/' ≡ s ∷ []
unfolding split
split-inner [] h = refl
split-inner (c ∷ s) h =
    let other : (c == b'/') ≡ false = let low = h.0 in ground arith in
    rw (split-inner s h.1, other) refl

≟-inner : (s : Bytes) (c : ℕ) (t : Bytes) → All IsInner s → is_inner c ≡ false → s ≟ (c ∷ t) ≡ false
unfolding ◌≟◌
≟-inner [] c t h dot = refl
≟-inner (d ∷ s) c t h dot = let here = h.0 in ground (arith, here)

has_prefix-inner :
    (p s : Bytes) (c : ℕ) → All IsInner s → is_inner c ≡ false → has_prefix s (p ++ c ∷ []) ≡ false
unfolding has_prefix
has_prefix-inner [] [] c h dot = refl
has_prefix-inner [] (d ∷ s) c h dot = let here = h.0 in ground (arith, here)
has_prefix-inner (q ∷ p) [] c h dot = refl
has_prefix-inner (q ∷ p) (d ∷ s) c h dot = ground (arith, has_prefix-inner p s c h.1 dot)

MatchesLabel-ne_nil : (s : Bytes) → MatchesLabel s → s ≟ [] ≡ false
unfolding ◌≟◌
MatchesLabel-ne_nil s (single c h e) = rw e refl
MatchesLabel-ne_nil s (enclosed c middle d hc h hd e) = rw e refl

-- What the server and the paths in etcd need of an alias.
pub record IsName (s : Bytes) : Type 0 where
  pub ascii : is_ascii s ≡ true
  pub plain : IsPlain s
  pub no_lan : has_prefix s (codes "lan.") ≡ false
  pub no_nated : has_prefix s (codes "nated.") ≡ false

-- An alias that is its own lower-case form and that `ValidateAlias` accepts is ASCII text, is one
-- element of a path, neither empty nor made of dots, and has none of the two prefixes with which
-- the server is asked for an endpoint.
pub validate_alias-IsName :
    (u : Unicode) (s : Bytes) → to_lower u s ≡ s → validate_alias u s ≡ none → IsName s
validate_alias-IsName u s lower h =
    let matches = (subst IsAlias lower ((validate_alias_iff u s).0 h)).matches in
    let inner = All-MatchesLabel s matches in
    record {
      ascii = is_ascii-inner s inner;
      plain = rw (split-inner s inner) (
        (
          MatchesLabel-ne_nil s matches,
          ≟-inner s b'.' [] inner refl,
          ≟-inner s b'.' (b'.' ∷ []) inner refl,
        ),
        tt,
      );
      no_lan = has_prefix-inner (codes "lan") s b'.' inner refl;
      no_nated = has_prefix-inner (codes "nated") s b'.' inner refl;
    }
