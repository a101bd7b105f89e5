-- ===== src/Text/Path.antt =====
-- path.Join of Go's library, for elements of which the first starts with a slash.
use valon.Prelude.{
  ℕ, Bool-cases, ◌||◌, ◌≡◌, refl, ap, ◌∙◌, sym, List, [], ◌∷◌, ◌++◌, append_assoc, append-nil,
  Bytes, codes, if◌then◌else◌, ◌≟◌, false, ◌==◌, arith, All, inl, inr,
}
use valon.Text.{split}

abbrev slash : Bytes
slash = codes "/"

abbrev parent : List Bytes → List Bytes
parent [] = []
parent (c ∷ cs) = cs

-- an element of the path, on top of those before it
unfoldable pub enter : List Bytes → Bytes → List Bytes
enter stack c =
    if c ≟ [] || c ≟ codes "." then stack else if c ≟ codes ".." then parent stack else c ∷ stack

unfoldable pub resolve : List Bytes → List Bytes → List Bytes
unfolding enter
resolve stack [] = stack
resolve stack (c ∷ cs) = resolve (enter stack c) cs

-- the path of a stack
unfoldable pub render : List Bytes → Bytes
render [] = []
render (c ∷ cs) = render cs ++ (slash ++ c)

-- `path.Clean` of a rooted path
unfoldable pub clean : Bytes → Bytes
unfolding resolve render
clean path = let s = render (resolve [] (split path b'/')) in if s ≟ [] then slash else s

unfoldable pub join_with : List Bytes → Bytes
join_with [] = []
join_with (e ∷ []) = e
join_with (e ∷ f ∷ es) = e ++ (slash ++ join_with (f ∷ es))

unfoldable pub path_join : List Bytes → Bytes
unfolding clean join_with
path_join es = clean (join_with es)

path_join_tests :
    (path_join (codes "/valon" ∷ codes "aliases" ∷ codes "home" ∷ []) ≡ codes "/valon/aliases/home")
    × (path_join (codes "/valon" ∷ codes "peers" ∷ codes "a//b=" ∷ codes "wg_ip" ∷ [])
        ≡ codes "/valon/peers/a/b=/wg_ip")
    × (path_join (codes "/valon" ∷ codes "aliases" ∷ codes "../peers" ∷ []) ≡ codes "/valon/peers")
unfolding path_join split ◌≟◌
path_join_tests = (refl, refl, refl)

-- An element that `path.Clean` leaves as it is.
abbrev pub IsElement : Bytes → Type 0
IsElement c = (c ≟ [] ≡ false) × (c ≟ codes "." ≡ false) × (c ≟ codes ".." ≡ false)

-- A text whose elements are all left as they are.
abbrev pub IsPlain : Bytes → Type 0
IsPlain s = All IsElement (split s b'/')

-- the elements, each behind a slash
unfoldable rooted : List Bytes → Bytes
rooted [] = []
rooted (c ∷ cs) = slash ++ (c ++ rooted cs)

render-resolve :
    (cs stack : List Bytes)
    → All IsElement cs
    → render (resolve stack cs) ≡ render stack ++ rooted cs
unfolding resolve render rooted
render-resolve [] stack h = sym (append-nil (render stack))
render-resolve (c ∷ cs) stack (h, rest) =
    rw (h.0, h.1, h.2)
      (render-resolve cs (c ∷ stack) rest ∙ append_assoc (render stack) (slash ++ c) (rooted cs))

-- what `split` does with one more byte in front
abbrev push : ℕ → List Bytes → List Bytes
push c [] = [] ∷ []
push c (part ∷ parts) = if c == b'/' then [] ∷ part ∷ parts else (c ∷ part) ∷ parts

split-push : (c : ℕ) (s : Bytes) → split (c ∷ s) b'/' ≡ push c (split s b'/')
unfolding split
split-push c s = from (split s b'/')
  where
    from :
        (ps : List Bytes)
        → (elim ps [
          | [] ↦ [] ∷ []
          | part ∷ parts ↦ if c == b'/' then [] ∷ part ∷ parts else (c ∷ part) ∷ parts
        ])
          ≡ push c ps
    from [] = refl
    from (part ∷ parts) = refl

rooted-push :
    (c : ℕ) (s : Bytes) (ps : List Bytes)
    → rooted ps ≡ slash ++ s
    → rooted (push c ps) ≡ slash ++ (c ∷ s)
unfolding rooted
rooted-push c s [] h = absurd cc
rooted-push c s (part ∷ parts) h = ground (arith, h)

rooted-split : (s : Bytes) → rooted (split s b'/') ≡ slash ++ s
unfolding rooted split
rooted-split [] = refl
rooted-split (c ∷ s) = ap rooted (split-push c s) ∙ rooted-push c s (split s b'/') (rooted-split s)

push-append :
    (c : ℕ) (p : Bytes) (ps qs : List Bytes) → push c ((p ∷ ps) ++ qs) ≡ push c (p ∷ ps) ++ qs
push-append c p ps qs = ground arith

split-cons : (s : Bytes) → (p : Bytes) × (ps : List Bytes) × (split s b'/' ≡ p ∷ ps)
split-cons [] = ([], [], unfold split in refl)
split-cons (c ∷ s) = rw (split-push c s) (from (split s b'/'))
  where
    from : (qs : List Bytes) → (p : Bytes) × (ps : List Bytes) × (push c qs ≡ p ∷ ps)
    from [] = ([], [], refl)
    from (q ∷ qs) = elim (Bool-cases (c == b'/')) [
      | inl is_slash ↦ ([], q ∷ qs, rw is_slash refl)
      | inr other ↦ (c ∷ q, qs, rw other refl)
    ]

pub split-append : (a b : Bytes) → split (a ++ (slash ++ b)) b'/' ≡ split a b'/' ++ split b b'/'
split-append [] b = let (p, ps, e) = split-cons b in split-push b'/' b ∙ rw e (unfold split in refl)
split-append (c ∷ a) b =
    let (p, ps, e) = split-cons a in
    split-push c (a ++ (slash ++ b))
    ∙ rw (split-append a b, split-push c a) (rw e (push-append c p ps (split b b'/')))

skip_empty : (cs : List Bytes) → render (resolve [] ([] ∷ cs)) ≡ render (resolve [] cs)
unfolding resolve ◌≟◌
skip_empty cs = refl

pub clean-plain : (s : Bytes) → IsPlain s → clean (slash ++ s) ≡ slash ++ s
unfolding clean
clean-plain s plain =
    let (p, ps, e) = split-cons s in
    let parts : split (slash ++ s) b'/' ≡ [] ∷ split s b'/' = split-push b'/' s ∙ rw e refl in
    let path : render (resolve [] (split (slash ++ s) b'/')) ≡ slash ++ s =
      ap (λ cs. render (resolve [] cs)) parts
      ∙ skip_empty (split s b'/')
      ∙ render-resolve (split s b'/') [] plain
      ∙ rooted-split s in
    rw path (unfold ◌≟◌ in refl)
