-- ===== src/Int64.antt =====
-- Go's `int64` and `strconv.FormatInt(x, 10)`. An `int64` is its two's-complement bit pattern, a
-- number below 2 ^ 64; addition wraps around, as in Go.
pub mod Decimal
use kestrai.Prelude.{
  ℕ, zero, suc, ◌+◌, ◌-◌, ◌/◌, ◌%◌, ◌^◌, ◌∷◌, ◌++◌, [], ◌≡◌, refl, ltb, Bool, ◌&&◌, if◌then◌else◌,
}
use kestrai.Text.{Str, codes}

-- `a + b` on `int64`
unfoldable pub add64 : ℕ → ℕ → ℕ
add64 a b = (a + b) % 2 ^ 64

-- `0 < x` on `int64`
unfoldable pub is_positive : ℕ → Bool
is_positive x = ltb 0 x && ltb x (2 ^ 63)

-- `int64(x)` of an `int32` bit pattern
unfoldable pub sign_extend32 : ℕ → ℕ
sign_extend32 x = if ltb x (2 ^ 31) then x else x + (2 ^ 64 - 2 ^ 32)

-- The decimal digits of `n`; the first argument bounds their number.
digits : ℕ → ℕ → Str
digits zero n = []
digits (suc f) n =
    let more = digits f (n / 10) ++ (b'0' + n % 10) ∷ [] in
    if ltb n 10 then (b'0' + n) ∷ [] else more

-- Twenty digits are enough: 2 ^ 64 < 10 ^ 20.
unfoldable pub format_int : ℕ → Str
unfolding digits
format_int x = if ltb x (2 ^ 63) then digits 20 x else b'-' ∷ digits 20 (2 ^ 64 - x)

format_int_max : format_int (2 ^ 63 - 1) ≡ codes "9223372036854775807"
unfolding format_int
format_int_max = refl

format_int_min : format_int (add64 (2 ^ 63 - 1) 1) ≡ codes "-9223372036854775808"
unfolding format_int add64
format_int_min = refl
