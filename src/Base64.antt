-- ===== src/Base64.antt =====
-- `base64.RawURLEncoding` of Go's encoding/base64: the URL-safe alphabet without padding, as the
-- continue tokens of internal/store/sqlite.go use it.
pub mod RoundTrip
use kestrai.Prelude.{
  ℕ, ◌+◌, ◌-◌, ◌*◌, ◌/◌, ◌%◌, ◌≡◌, refl, Option, none, some, Bool, ◌&&◌, ◌||◌, not, [], ◌∷◌, ltb,
  leb, ◌==◌, if◌then◌else◌, filter,
}
use kestrai.Text.{Str, codes}

-- The digit of a value below 64.
sym64 : ℕ → ℕ
sym64 v =
    if ltb v 26
    then b'A' + v
    else if ltb v 52
    then b'a' + (v - 26)
    else if ltb v 62
    then b'0' + (v - 52)
    else if v == 62
    then b'-'
    else b'_'

-- `EncodeToString`
unfoldable pub encode : Str → Str
unfolding sym64
encode [] = []
encode (a ∷ []) = sym64 (a / 4) ∷ sym64 (a % 4 * 16) ∷ []
encode (a ∷ b ∷ []) = sym64 (a / 4) ∷ sym64 (a % 4 * 16 + b / 16) ∷ sym64 (b % 16 * 4) ∷ []
encode (a ∷ b ∷ c ∷ s) =
    sym64 (a / 4)
    ∷ sym64 (a % 4 * 16 + b / 16)
    ∷ sym64 (b % 16 * 4 + c / 64)
    ∷ sym64 (c % 64)
    ∷ encode s

val64 : ℕ → Option ℕ
val64 c =
    if leb b'A' c && leb c b'Z'
    then some (c - b'A')
    else if leb b'a' c && leb c b'z'
    then some (26 + (c - b'a'))
    else if leb b'0' c && leb c b'9'
    then some (52 + (c - b'0'))
    else if c == b'-'
    then some 62
    else if c == b'_'
    then some 63
    else none

infixl 5 ◌>>=◌
abbrev ◌>>=◌ : {A B : Type 0} → Option A → (A → Option B) → Option B
none >>= f = none
some a >>= f = f a

-- A last group of one digit is an error; bits that a short group leaves over are ignored.
decode_groups : Str → Option Str
unfolding val64
decode_groups [] = some []
decode_groups (p ∷ []) = none
decode_groups (p ∷ q ∷ []) = do w ← val64 p; x ← val64 q; some ((w * 4 + x / 16) ∷ [])
decode_groups (p ∷ q ∷ r ∷ []) = do
  w ← val64 p
  x ← val64 q
  y ← val64 r
  some ((w * 4 + x / 16) ∷ (x % 16 * 16 + y / 4) ∷ [])
decode_groups (p ∷ q ∷ r ∷ t ∷ s) =
    let rest = decode_groups s in
    do
      w ← val64 p
      x ← val64 q
      y ← val64 r
      z ← val64 t
      out ← rest
      some ((w * 4 + x / 16) ∷ (x % 16 * 16 + y / 4) ∷ (y % 4 * 64 + z) ∷ out)

-- Line ends are skipped wherever they stand.
is_digit : ℕ → Bool
is_digit c = not (c == 10 || c == 13)

-- `DecodeString`; `none` is the `CorruptInputError`.
unfoldable pub decode : Str → Option Str
unfolding decode_groups is_digit
decode s = decode_groups (filter is_digit s)

encode_many_hands : encode (codes "Many hands") ≡ codes "TWFueSBoYW5kcw"
unfolding encode
encode_many_hands = refl

decode_bad : decode (codes "TW!u") ≡ none
unfolding decode
decode_bad = refl
