-- ===== src/Text/Split.antt =====
-- `strings.Split` with a one-byte separator.
use kestrai.Prelude.{ℕ, ◌≡◌, refl, List, [], ◌∷◌, ◌++◌, arith, ◌==◌, if◌then◌else◌}
use kestrai.Text.{Str}
use kestrai.Text.Cut.{Lacks}

-- The first part gets one more byte; a split always has a part.
abbrev prepend : ℕ → List Str → List Str
prepend c [] = (c ∷ []) ∷ []
prepend c (part ∷ parts) = (c ∷ part) ∷ parts

unfoldable pub split : ℕ → Str → List Str
split sep [] = [] ∷ []
split sep (c ∷ s) = let rest = split sep s in if c == sep then [] ∷ rest else prepend c rest

pub split-append :
    (sep : ℕ) (part s : Str) → Lacks sep part → split sep (part ++ sep ∷ s) ≡ part ∷ split sep s
unfolding split
split-append sep [] s h = ground arith
split-append sep (c ∷ part) s (hc, h) = ground (arith, split-append sep part s h)

pub split-Lacks : (sep : ℕ) (part : Str) → Lacks sep part → split sep part ≡ part ∷ []
unfolding split
split-Lacks sep [] h = refl
split-Lacks sep (c ∷ part) (hc, h) = ground (arith, split-Lacks sep part h)
