-- ===== src/Cli/Columns/Goal.antt =====
-- The goal column: what `truncate` keeps of a text.
use kestrai.Prelude.{
  ℕ, zero, suc, ◌≡◌, ◌≢◌, refl, ap, ◌+◌, ◌-◌, ◌≤◌, List, [], ◌∷◌, ◌++◌, leb, leb→le, le→leb, length,
  take, length-append, All, All-append, arith, Bool-cases, inl, inr,
}
use kestrai.Text.{Str}
use kestrai.Cli.Columns.{one_line, truncate, ellipsis}

length-take_all : {A : Type 0} (n : ℕ) (xs : List A) → length (take n xs) ≤ n
length-take_all zero xs = omega arith
length-take_all (suc n) [] = omega arith
length-take_all (suc n) (x ∷ xs) = omega (arith, length-take_all n xs)

take-take_append :
    {A : Type 0} (n : ℕ) (xs ys : List A) → n ≤ length xs → take n (take n xs ++ ys) ≡ take n xs
take-take_append zero xs ys h = refl
take-take_append (suc n) [] ys h = absurd (omega arith)
take-take_append (suc n) (x ∷ xs) ys h = ap (◌∷◌ x) (take-take_append n xs ys (omega arith))

All-take : {A : Type 0} (P : A → Type 0) (n : ℕ) (xs : List A) → All P xs → All P (take n xs)
All-take P zero xs h = tt
All-take P (suc n) [] h = tt
All-take P (suc n) (x ∷ xs) (p, h) = (p, All-take P n xs h)

abbrev pub IsNotNewline : ℕ → Type 0
IsNotNewline c = c ≢ b'\n'

one_line-All : (s : Str) → All IsNotNewline (one_line s)
unfolding one_line
one_line-All [] = tt
one_line-All (c ∷ s) = ((λ e. ground arith), one_line-All s)

-- A goal is shown on one line of at most `n` bytes and the two more that the ellipsis is longer than
-- the byte that it stands for; the first `n - 1` bytes are those of the goal, with spaces for line
-- breaks, and a goal of at most `n` bytes is shown whole.
pub truncate_fits :
    (s : Str) (n : ℕ)
    → 1 ≤ n
    → (length (truncate s n) ≤ n + 2)
      × All IsNotNewline (truncate s n)
      × (take (n - 1) (truncate s n) ≡ take (n - 1) (one_line s))
      × (length (one_line s) ≤ n → truncate s n ≡ one_line s)
unfolding truncate
truncate_fits s n h = elim (Bool-cases (leb (length (one_line s)) n)) [
  | inl short ↦
      let fits = leb→le (length (one_line s)) n short in
      rw short (omega arith, one_line-All s, refl, (λ e. refl))
  | inr long ↦
      let over : n ≤ length (one_line s) = ground (arith, le→leb (length (one_line s)) n) in
      rw long (
        omega (
          arith,
          length-append (take (n - 1) (one_line s)) ellipsis,
          length-take_all (n - 1) (one_line s),
        ),
        All-append IsNotNewline (take (n - 1) (one_line s)) ellipsis
            (All-take IsNotNewline (n - 1) (one_line s) (one_line-All s))
            ((λ e. cc), ((λ e. cc), ((λ e. cc), tt))),
        take-take_append (n - 1) (one_line s) ellipsis (omega arith),
        (λ e. absurd (let short = le→leb (length (one_line s)) n e in cc)),
      )
]
