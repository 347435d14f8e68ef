-- ===== src/Tests/Auth.antt =====
-- Witnesses on the interceptor.
use kestrai.Prelude.{ℕ, suc, ◌≡◌, ◌≢◌, refl, none, some, [], ◌∷◌, ◌++◌, ok, arith}
use kestrai.Text.{Str, codes, str_eq}
use kestrai.Auth.{Headers, StaticToken, new_static_token, static_token}
use kestrai.Auth.Interceptor.{
  Handler, authorization_header, bearer_token, new_interceptor, is_public, unary,
}
use kestrai.Auth.Interceptor.Guards.{FailsWith, token_identity, unary_guards, bearer_token_reads}
use kestrai.Server.Status.{Code}

abbrev secret : Str
secret = codes "hunter2"

abbrev shared : StaticToken
shared = record { token = secret; tenant_id = codes "acme" }

-- A handler that counts its calls.
abbrev counting : Handler ℕ Str
counting id n = (suc n, ok (codes "done"))

abbrev headers : Headers
headers = (authorization_header, (codes "BEARER " ++ secret) ∷ []) ∷ []

abbrev health : Str
health = codes "/kestrai.v1alpha1.SystemService/GetHealth"

abbrev get_project_method : Str
get_project_method = codes "/kestrai.v1alpha1.ProjectService/GetProject"

unary_guards_example :
    let out =
      unary
        (new_interceptor (static_token shared) (health ∷ []))
        get_project_method
        headers
        none
        counting
        5 in
    (bearer_token headers ≡ secret → out ≡ counting (some (token_identity (codes "acme"))) 5)
    × (bearer_token headers ≢ secret → FailsWith Code.unauthenticated 5 out)
unfolding new_static_token is_public str_eq
unary_guards_example =
    unary_guards shared (health ∷ []) headers secret (some (codes "acme")) get_project_method none
      counting 5 refl refl

bearer_token_reads_example : bearer_token headers ≡ secret
bearer_token_reads_example = bearer_token_reads (codes "BEARER ") secret [] [] refl refl (
  (omega arith, omega arith),
  (
    (omega arith, omega arith),
    (
      (omega arith, omega arith),
      (
        (omega arith, omega arith),
        (
          (omega arith, omega arith),
          ((omega arith, omega arith), ((omega arith, omega arith), tt)),
        ),
      ),
    ),
  ),
)
