-- ===== src/Text/Trim.antt =====
-- `strings.TrimSpace`: the white space of Unicode, in UTF-8, is taken off both ends.
use mathlib.Core.List.{reverse, reverse-cons, reverse-reverse}
use kestrai.Prelude.{
  ℕ, zero, suc, ◌-◌, ◌≤◌, ◌≡◌, refl, Bool, ◌&&◌, ◌||◌, [], ◌∷◌, arith, ◌==◌, leb, if◌then◌else◌,
  All, All-append,
}
use kestrai.Text.{Str, codes}

ascii_space : ℕ → Bool
ascii_space a = (leb 9 a && leb a 13) || a == 32

-- U+0085 and U+00A0
two_byte_space : ℕ → ℕ → Bool
two_byte_space a b = a == 0xc2 && (b == 0x85 || b == 0xa0)

-- U+1680, U+2000 to U+200A, U+2028, U+2029, U+202F, U+205F and U+3000
three_byte_space : ℕ → ℕ → ℕ → Bool
three_byte_space a b c =
    (a == 0xe1 && b == 0x9a && c == 0x80)
    || (a == 0xe2
        && ((b == 0x80 && (leb c 0x8a && leb 0x80 c || c == 0xa8 || c == 0xa9 || c == 0xaf))
            || (b == 0x81 && c == 0x9f)))
    || (a == 0xe3 && b == 0x80 && c == 0x80)

-- The bytes of the white space at the front, zero if there is none.
space_at_front : Str → ℕ
unfolding ascii_space two_byte_space three_byte_space
space_at_front [] = 0
space_at_front (a ∷ []) = if ascii_space a then 1 else 0
space_at_front (a ∷ b ∷ []) = if ascii_space a then 1 else if two_byte_space a b then 2 else 0
space_at_front (a ∷ b ∷ c ∷ s) =
    if ascii_space a
    then 1
    else if two_byte_space a b
    then 2
    else if three_byte_space a b c
    then 3
    else 0

-- The same of a reversed string, whose front is the end.
space_at_end : Str → ℕ
unfolding ascii_space two_byte_space three_byte_space
space_at_end [] = 0
space_at_end (a ∷ []) = if ascii_space a then 1 else 0
space_at_end (b ∷ a ∷ []) = if ascii_space b then 1 else if two_byte_space a b then 2 else 0
space_at_end (c ∷ b ∷ a ∷ s) =
    if ascii_space c
    then 1
    else if two_byte_space b c
    then 2
    else if three_byte_space a b c
    then 3
    else 0

-- Drops what `space` measures, again and again; `skip` bytes of a space are still to go.
drop_spaces : (Str → ℕ) → ℕ → Str → Str
drop_spaces space skip [] = []
drop_spaces space (suc skip) (c ∷ s) = drop_spaces space skip s
drop_spaces space zero (c ∷ s) =
    let n = space (c ∷ s) in
    let rest = drop_spaces space (n - 1) s in if n == 0 then c ∷ s else rest

unfoldable pub trim_space : Str → Str
unfolding drop_spaces space_at_front space_at_end
trim_space s = reverse (drop_spaces space_at_end 0 (reverse (drop_spaces space_at_front 0 s)))

trims_both_ends : trim_space (codes " \t a b ") ≡ codes "a b"
unfolding trim_space
trims_both_ends = refl

trims_unicode : trim_space (0xe3 ∷ 0x80 ∷ 0x80 ∷ b'a' ∷ 0xc2 ∷ 0xa0 ∷ []) ≡ codes "a"
unfolding trim_space
trims_unicode = refl

-- Printable ASCII other than the space.
abbrev pub IsGraphic : Str → Type 0
IsGraphic = All (λ c. (33 ≤ c) × (c ≤ 126))

front_graphic : (s : Str) → IsGraphic s → drop_spaces space_at_front 0 s ≡ s
unfolding drop_spaces space_at_front
front_graphic [] h = refl
front_graphic (a ∷ []) h = ground arith
front_graphic (a ∷ b ∷ []) h = ground arith
front_graphic (a ∷ b ∷ c ∷ s) h = ground arith

end_graphic : (s : Str) → IsGraphic s → drop_spaces space_at_end 0 s ≡ s
unfolding drop_spaces space_at_end
end_graphic [] h = refl
end_graphic (a ∷ []) h = ground arith
end_graphic (a ∷ b ∷ []) h = ground arith
end_graphic (a ∷ b ∷ c ∷ s) h = ground arith

IsGraphic-reverse : (s : Str) → IsGraphic s → IsGraphic (reverse s)
IsGraphic-reverse [] h = tt
IsGraphic-reverse (c ∷ s) (hc, h) =
    rw (reverse-cons c s)
      (All-append (λ c. (33 ≤ c) × (c ≤ 126)) (reverse s) (c ∷ []) (IsGraphic-reverse s h) (hc, tt))

-- A graphic string has nothing to trim.
pub trim_space-graphic : (s : Str) → IsGraphic s → trim_space s ≡ s
unfolding trim_space
trim_space-graphic s h =
    rw (front_graphic s h, end_graphic (reverse s) (IsGraphic-reverse s h)) (reverse-reverse s)
