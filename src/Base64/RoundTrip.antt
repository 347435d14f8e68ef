-- ===== src/Base64/RoundTrip.antt =====
-- Decoding an encoded string gives it back.
use kestrai.Prelude.{
  ℕ, ◌+◌, ◌*◌, ◌/◌, ◌%◌, ◌<◌, ◌≡◌, ◌≢◌, refl, some, true, [], ◌∷◌, arith, filter, All,
}
use kestrai.Text.{Str}
use kestrai.Base64.{encode, decode, decode_groups, is_digit, sym64, val64}

abbrev pub IsBytes : Str → Type 0
IsBytes = All (λ c. c < 256)

val64-sym64 : (v : ℕ) → v < 64 → val64 (sym64 v) ≡ some v
unfolding val64 sym64
val64-sym64 v h = ground arith

is_digit-sym64 : (v : ℕ) → v < 64 → is_digit (sym64 v) ≡ true
unfolding is_digit sym64
is_digit-sym64 v h = ground arith

abbrev AreDigits : Str → Type 0
AreDigits = All (λ c. is_digit c ≡ true)

filter_all : (s : Str) → AreDigits s → filter is_digit s ≡ s
filter_all [] h = refl
filter_all (c ∷ s) (hc, h) = rw (hc, filter_all s h)

encode-AreDigits : (s : Str) → IsBytes s → AreDigits (encode s)
unfolding encode
encode-AreDigits [] h = tt
encode-AreDigits (a ∷ []) h = ground (arith, is_digit-sym64 (a / 4), is_digit-sym64 (a % 4 * 16))
encode-AreDigits (a ∷ b ∷ []) h = ground (
  arith,
  is_digit-sym64 (a / 4),
  is_digit-sym64 (a % 4 * 16 + b / 16),
  is_digit-sym64 (b % 16 * 4),
)
encode-AreDigits (a ∷ b ∷ c ∷ s) (ha, (hb, (hc, h))) = ground (
  arith,
  is_digit-sym64 (a / 4),
  is_digit-sym64 (a % 4 * 16 + b / 16),
  is_digit-sym64 (b % 16 * 4 + c / 64),
  is_digit-sym64 (c % 64),
  encode-AreDigits s h,
)

decode_groups-encode : (s : Str) → IsBytes s → decode_groups (encode s) ≡ some s
unfolding decode_groups encode
decode_groups-encode [] h = refl
decode_groups-encode (a ∷ []) h = ground (arith, val64-sym64 (a / 4), val64-sym64 (a % 4 * 16))
decode_groups-encode (a ∷ b ∷ []) h =
    ground (arith, val64-sym64 (a / 4), val64-sym64 (a % 4 * 16 + b / 16), val64-sym64 (b % 16 * 4))
decode_groups-encode (a ∷ b ∷ c ∷ s) (ha, (hb, (hc, h))) = ground (
  arith,
  val64-sym64 (a / 4),
  val64-sym64 (a % 4 * 16 + b / 16),
  val64-sym64 (b % 16 * 4 + c / 64),
  val64-sym64 (c % 64),
  decode_groups-encode s h,
)

-- Decoding undoes encoding on every string of bytes.
pub decode-encode : (s : Str) → IsBytes s → decode (encode s) ≡ some s
unfolding decode
decode-encode s h = rw (filter_all (encode s) (encode-AreDigits s h)) (decode_groups-encode s h)

-- Only the empty string has an empty encoding.
pub encode-ne-nil : (s : Str) → s ≢ [] → encode s ≢ []
unfolding encode
encode-ne-nil [] h e = h refl
encode-ne-nil (a ∷ []) h e = cc
encode-ne-nil (a ∷ b ∷ []) h e = cc
encode-ne-nil (a ∷ b ∷ c ∷ s) h e = cc
