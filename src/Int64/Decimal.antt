-- ===== src/Int64/Decimal.antt =====
-- `strconv.FormatInt` loses nothing: different integers have different texts.
use native.Mathlib.Nat.{pow-suc}
use kestrai.Prelude.{
  ℕ, zero, suc, ◌+◌, ◌-◌, ◌*◌, ◌/◌, ◌%◌, ◌^◌, ◌<◌, ◌≤◌, [], ◌∷◌, ◌++◌, ◌≡◌, refl, ap, sym, ◌∙◌,
  arith, ltb, inl, inr, Bool-cases, ◌==◌, if◌then◌else◌,
}
use kestrai.Text.{Str}
use kestrai.Int64.{digits, format_int}

-- The number that decimal digits spell, read from the left.
value : ℕ → Str → ℕ
value acc [] = acc
value acc (c ∷ s) = value (acc * 10 + (c - b'0')) s

value-append : (acc c : ℕ) (s : Str) → value acc (s ++ c ∷ []) ≡ value acc s * 10 + (c - b'0')
unfolding value
value-append acc c [] = refl
value-append acc c (d ∷ s) = value-append (acc * 10 + (d - b'0')) c s

tenth_fits : (f n : ℕ) → n < 10 ^ suc f → n / 10 < 10 ^ f
tenth_fits f n h = omega (arith, pow-suc 10 f)

value-digits : (f n : ℕ) → n < 10 ^ f → value 0 (digits f n) ≡ n
unfolding digits
value-digits zero n h = unfold value in omega arith
value-digits (suc f) n h = elim (Bool-cases (ltb n 10)) [
  | inl small ↦ rw small (unfold value in omega arith)
  | inr large ↦ rw large (
      omega (
        arith,
        value-append 0 (b'0' + n % 10) (digits f (n / 10)),
        value-digits f (n / 10) (tenth_fits f n h),
      ))
]

-- Spells what `format_int` was given.
read_int : Str → ℕ
read_int [] = 0
read_int (c ∷ s) = if c == b'-' then 2 ^ 64 - value 0 s else value 0 (c ∷ s)

abbrev IsUnsigned : Str → Type 0
IsUnsigned [] = Unit
IsUnsigned (c ∷ s) = b'0' ≤ c

IsUnsigned-append : (s : Str) (c : ℕ) → IsUnsigned s → b'0' ≤ c → IsUnsigned (s ++ c ∷ [])
IsUnsigned-append [] c h k = k
IsUnsigned-append (d ∷ s) c h k = h

digits-IsUnsigned : (f n : ℕ) → IsUnsigned (digits f n)
unfolding digits
digits-IsUnsigned zero n = tt
digits-IsUnsigned (suc f) n = elim (Bool-cases (ltb n 10)) [
  | inl small ↦ rw small (omega arith)
  | inr large ↦
      rw large
        (IsUnsigned-append (digits f (n / 10)) _ (digits-IsUnsigned f (n / 10)) (omega arith))
]

read_int-unsigned : (s : Str) → IsUnsigned s → read_int s ≡ value 0 s
unfolding read_int
read_int-unsigned [] h = unfold value in refl
read_int-unsigned (c ∷ s) h = ground arith

read_int-format_int : (x : ℕ) → x < 2 ^ 64 → read_int (format_int x) ≡ x
unfolding format_int
read_int-format_int x h = elim (Bool-cases (ltb x (2 ^ 63))) [
  | inl small ↦
      rw small (read_int-unsigned _ (digits-IsUnsigned 20 x) ∙ value-digits 20 x (omega arith))
  | inr large ↦
      rw large (unfold read_int in omega (arith, value-digits 20 (2 ^ 64 - x) (omega arith)))
]

-- Two `int64` with one decimal text are equal.
pub format_int-injective : (x y : ℕ) → x < 2 ^ 64 → y < 2 ^ 64 → format_int x ≡ format_int y → x ≡ y
format_int-injective x y hx hy e =
    sym (read_int-format_int x hx) ∙ ap read_int e ∙ read_int-format_int y hy
