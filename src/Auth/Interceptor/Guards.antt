-- ===== src/Auth/Interceptor/Guards.antt =====
-- Who gets past the interceptor.
use kestrai.Prelude.{
  map_err, length-append, ℕ, zero, suc, le→leb, ◌≡◌, ◌≢◌, refl, ap, sym, ◌∙◌, true, false, Option,
  none, some, List, [], ◌∷◌, ◌++◌, Result, ok, err, arith, length, take, drop, map, inl, inr,
  Bool-cases,
}
use kestrai.Text.{Str, codes, str_eq, str_eq_iff, is_empty}
use kestrai.Text.Trim.{IsGraphic, trim_space-graphic}
use kestrai.Auth.{
  unauthenticated, Identity, Headers, Credentials, StaticToken, new_static_token, static_token,
  static_token_name, default_tenant, check_token,
}
use kestrai.Auth.Interceptor.{
  Handler, bearer_token, token_of, header_values, authorization_header, has_prefix, is_public,
  authenticate, unary, admitted, new_interceptor, lower, prefix,
}
use kestrai.Server.Status.{Status, status, Code}

-- The identity of the shared token.
abbrev pub token_identity : Str → Identity
token_identity tenant = record {
  subject = static_token_name;
  tenant_id = tenant;
  groups = [];
  extra = [];
}

abbrev pub or_default : Option Str → Str
or_default none = default_tenant
or_default (some tenant) = tenant

abbrev pub FailsWith : {S A : Type 0} → Code → S → S × Result Status A → Type 0
FailsWith code s out = (message : Str) × (out ≡ (s, err (status code message)))

new_static_token-ok :
    (secret : Str) (tenant : Option Str) (t : StaticToken)
    → new_static_token secret tenant ≡ ok t
    → (t.token ≡ secret) × (t.tenant_id ≡ or_default tenant) × (is_empty secret ≡ false)
unfolding new_static_token
new_static_token-ok [] none t h = cc
new_static_token-ok [] (some tenant) t h = cc
new_static_token-ok (c ∷ secret) none t h = (cc, cc, refl)
new_static_token-ok (c ∷ secret) (some tenant) t h = (cc, cc, refl)

accepted :
    (t : StaticToken) (creds : Credentials)
    → is_empty creds.token ≡ false
    → creds.token ≡ t.token
    → check_token t creds ≡ ok (token_identity t.tenant_id)
unfolding check_token
accepted t creds given same = rw (given, (str_eq_iff creds.token t.token).1 same) refl

str_eq_differs : (a b : Str) → a ≢ b → str_eq a b ≡ false
str_eq_differs a b h = elim (Bool-cases (str_eq a b)) [
  | inl e ↦ absurd (h ((str_eq_iff a b).0 e))
  | inr e ↦ e
]

refused :
    (t : StaticToken) (creds : Credentials)
    → creds.token ≢ t.token
    → (e : Str) × (check_token t creds ≡ err e)
unfolding check_token
refused t creds differs = elim (Bool-cases (is_empty creds.token)) [
  | inl missing ↦ (unauthenticated ++ codes ": missing bearer token", rw missing refl)
  | inr given ↦ (
    unauthenticated ++ codes ": invalid bearer token",
    rw (given, str_eq_differs creds.token t.token differs) refl,
  )
]

module _ {S A : Type 0} (t : StaticToken) (methods : List Str) (md : Headers) where
  checked_call :
      (method : Str) (ctx : Option Identity) (handler : Handler S A) (s : S)
      (r : Result Str Identity)
      → is_public methods method ≡ false
      → check_token t (record { token = bearer_token md; metadata = md }) ≡ r
      → unary (new_interceptor (static_token t) methods) method md ctx handler s
        ≡ admitted ctx (map_err (status Code.unauthenticated) r) handler s
  unfolding unary new_interceptor static_token authenticate
  checked_call method ctx handler s r private e = rw private (
      ap
        (λ (x : Result Str Identity).
          admitted ctx (map_err (status Code.unauthenticated) x) handler s)
        e)

  -- Behind a static token, a method that is not public runs its handler, as the identity of the
  -- token's tenant, if the call brings that token; else it fails with Unauthenticated and changes
  -- nothing. What the context held before does not count.
  pub unary_guards :
      (secret : Str) (tenant : Option Str) (method : Str) (ctx : Option Identity)
      (handler : Handler S A) (s : S)
      → new_static_token secret tenant ≡ ok t
      → is_public methods method ≡ false
      → let out = unary (new_interceptor (static_token t) methods) method md ctx handler s in
        (bearer_token md ≡ secret → out ≡ handler (some (token_identity (or_default tenant))) s)
        × (bearer_token md ≢ secret → FailsWith Code.unauthenticated s out)
  unary_guards secret tenant method ctx handler s made private =
      let (token, scope, given) = new_static_token-ok secret tenant t made in
      let creds : Credentials = record { token = bearer_token md; metadata = md } in
      (
        (λ same.
            checked_call method ctx handler s _ private
              (accepted t creds (rw same given) (same ∙ sym token))
            ∙ ap (λ z. handler (some (token_identity z)) s) scope),
        (λ differs.
            let (e, failed) = refused t creds (λ same. differs (same ∙ token)) in
            (e, checked_call method ctx handler s (err e) private failed)),
      )

take-append : {A : Type 0} (n : ℕ) (s t : List A) → length s ≡ n → take n (s ++ t) ≡ s
take-append zero [] t e = refl
take-append zero (x ∷ s) t e = absurd (omega arith)
take-append (suc n) [] t e = absurd (omega arith)
take-append (suc n) (x ∷ s) t e = ap (◌∷◌ x) (take-append n s t (omega arith))

drop-append : {A : Type 0} (n : ℕ) (s t : List A) → length s ≡ n → drop n (s ++ t) ≡ t
drop-append zero [] t e = refl
drop-append zero (x ∷ s) t e = absurd (omega arith)
drop-append (suc n) [] t e = absurd (omega arith)
drop-append (suc n) (x ∷ s) t e = drop-append n s t (omega arith)

has_prefix-append :
    (scheme token : Str)
    → length scheme ≡ 7
    → map lower scheme ≡ prefix
    → has_prefix (scheme ++ token) ≡ true
unfolding str_eq
has_prefix-append scheme token len folded =
    let long = le→leb 7 (length (scheme ++ token)) (omega (arith, length-append scheme token)) in
    rw (long, take-append 7 scheme token len, folded) refl

-- `bearer_token` reads the token of the first `authorization` header whatever the case of `Bearer`,
-- if the token is printable ASCII without spaces.
pub bearer_token_reads :
    (scheme token : Str) (values : List Str) (md : Headers)
    → length scheme ≡ 7
    → map lower scheme ≡ prefix
    → IsGraphic token
    → bearer_token ((authorization_header, (scheme ++ token) ∷ values) ∷ md) ≡ token
unfolding bearer_token token_of header_values str_eq
bearer_token_reads scheme token values md len folded graphic =
    rw (has_prefix-append scheme token len folded, drop-append 7 scheme token len)
      (trim_space-graphic token graphic)
