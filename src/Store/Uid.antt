-- ===== src/Store/Uid.antt =====
-- `newUID`: a version-4 UUID from sixteen random bytes.
use kestrai.Prelude.{ℕ, ◌+◌, ◌-◌, ◌/◌, ◌%◌, [], ◌∷◌, ◌++◌, ltb, bit_and, bit_or, if◌then◌else◌}
use kestrai.Text.{Str}

-- The bytes that rand.Read fills.
pub record Entropy : Type 0 where
  pub b0 : ℕ
  pub b1 : ℕ
  pub b2 : ℕ
  pub b3 : ℕ
  pub b4 : ℕ
  pub b5 : ℕ
  pub b6 : ℕ
  pub b7 : ℕ
  pub b8 : ℕ
  pub b9 : ℕ
  pub b10 : ℕ
  pub b11 : ℕ
  pub b12 : ℕ
  pub b13 : ℕ
  pub b14 : ℕ
  pub b15 : ℕ

hex_digit : ℕ → ℕ
hex_digit n = if ltb n 10 then b'0' + n else b'a' + (n - 10)

-- `%x` of a byte slice
hex : Str → Str
unfolding hex_digit
hex [] = []
hex (b ∷ s) = hex_digit (b / 16) ∷ hex_digit (b % 16) ∷ hex s

version4 : ℕ → ℕ
version4 b = bit_or (bit_and b 0x0f) 0x40

variant10 : ℕ → ℕ
variant10 b = bit_or (bit_and b 0x3f) 0x80

unfoldable pub new_uid : Entropy → Str
unfolding hex version4 variant10
new_uid e =
    hex (e.b0 ∷ e.b1 ∷ e.b2 ∷ e.b3 ∷ [])
    ++ b'-' ∷ hex (e.b4 ∷ e.b5 ∷ [])
    ++ b'-' ∷ hex (version4 e.b6 ∷ e.b7 ∷ [])
    ++ b'-' ∷ hex (variant10 e.b8 ∷ e.b9 ∷ [])
    ++ b'-' ∷ hex (e.b10 ∷ e.b11 ∷ e.b12 ∷ e.b13 ∷ e.b14 ∷ e.b15 ∷ [])
