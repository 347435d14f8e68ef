-- ===== src/Text/Cut.antt =====
-- `strings.Cut` with a one-byte separator.
use kestrai.Prelude.{
  ℕ, ◌≡◌, ◌≢◌, Option, none, some, [], ◌∷◌, ◌++◌, arith, ◌==◌, if◌then◌else◌, All,
}
use kestrai.Text.{Str}

abbrev keep : ℕ → Option (Str × Str) → Option (Str × Str)
keep c none = none
keep c (some (before, after)) = some (c ∷ before, after)

-- `strings.Cut(s, sep)`; `none` is a false `found`.
unfoldable pub cut : ℕ → Str → Option (Str × Str)
cut sep [] = none
cut sep (c ∷ s) = let rest = cut sep s in if c == sep then some ([], s) else keep c rest

abbrev pub Lacks : ℕ → Str → Type 0
Lacks b = All (λ c. c ≢ b)

-- The cut is at the first separator.
pub cut-append :
    (sep : ℕ) (before after : Str)
    → Lacks sep before
    → cut sep (before ++ sep ∷ after) ≡ some (before, after)
unfolding cut
cut-append sep [] after h = ground arith
cut-append sep (c ∷ before) after (hc, h) = ground (arith, cut-append sep before after h)
