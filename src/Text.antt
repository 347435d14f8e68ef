-- ===== src/Text.antt =====
-- Go strings. A string is the list of its bytes; literals in the source are ASCII, so their code
-- points are their bytes. Equality and the order are those of Go's `==` and `<`.
pub mod Order
pub mod Cut
pub mod Trim
pub mod Split
use Prim.Native.Char.{code}
use Prim.Native.String.{String}
use kestrai.Prelude.{
  ℕ, ◌≡◌, refl, ap, ◌↔◌, Bool, true, false, ◌&&◌, List, [], ◌∷◌, arith, ◌==◌, ==_iff,
}

abbrev pub Str : Type 0
Str = List ℕ

abbrev pub codes : String → Str
codes String.[] = []
codes (String.◌∷◌ c s) = code c ∷ codes s

-- `s == t`
unfoldable pub str_eq : Str → Str → Bool
str_eq [] [] = true
str_eq (c ∷ s) (d ∷ t) = c == d && str_eq s t
str_eq _ _ = false

-- `s == ""`
abbrev pub is_empty : Str → Bool
is_empty [] = true
is_empty (c ∷ s) = false

pub str_eq_iff : (s t : Str) → (str_eq s t ≡ true) ↔ (s ≡ t)
unfolding str_eq
str_eq_iff [] [] = ((λ h. refl), (λ h. refl))
str_eq_iff [] (d ∷ t) = ((λ h. cc), (λ h. cc))
str_eq_iff (c ∷ s) [] = ((λ h. cc), (λ h. cc))
str_eq_iff (c ∷ s) (d ∷ t) =
    ((λ h. ground (arith, str_eq_iff s t)), (λ h. ground (arith, str_eq_iff s t)))

pub str_eq_refl : (s : Str) → str_eq s s ≡ true
str_eq_refl s = (str_eq_iff s s).1 refl
