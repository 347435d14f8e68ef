-- ===== src/Text/Order.antt =====
-- Go's `<` on strings: the lexicographic order of the bytes, a strict linear order.
use kestrai.Prelude.{◌≡◌, refl, ◌⊎◌, Bool, true, false, ◌&&◌, ◌||◌, [], ◌∷◌, arith, ◌==◌, ltb}
use kestrai.Text.{Str}

-- `s < t`
unfoldable pub str_less : Str → Str → Bool
str_less [] [] = false
str_less [] (d ∷ t) = true
str_less (c ∷ s) [] = false
str_less (c ∷ s) (d ∷ t) = ltb c d || (c == d && str_less s t)

pub str_less_irrefl : (s : Str) → str_less s s ≡ false
unfolding str_less
str_less_irrefl [] = refl
str_less_irrefl (c ∷ s) = ground (arith, str_less_irrefl s)

pub str_less_trans : (s t u : Str) → str_less s t ≡ true → str_less t u ≡ true → str_less s u ≡ true
unfolding str_less
str_less_trans [] [] u h k = ground arith
str_less_trans [] (d ∷ t) [] h k = ground arith
str_less_trans [] (d ∷ t) (e ∷ u) h k = refl
str_less_trans (c ∷ s) [] u h k = ground arith
str_less_trans (c ∷ s) (d ∷ t) [] h k = ground arith
str_less_trans (c ∷ s) (d ∷ t) (e ∷ u) h k = ground (arith, str_less_trans s t u)

pub str_less_total : (s t : Str) → (str_less s t ≡ true) ⊎ (s ≡ t) ⊎ (str_less t s ≡ true)
unfolding str_less
str_less_total [] [] = ground arith
str_less_total [] (d ∷ t) = ground arith
str_less_total (c ∷ s) [] = ground arith
str_less_total (c ∷ s) (d ∷ t) = ground (arith, str_less_total s t)
